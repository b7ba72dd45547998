-- ===== src/Manager/Entry.antt =====
-- nm/nm_state.h: the entry of a file, with its access list and its checkpoints.
use co_write_file_system.Prelude.{ℕ, Bool, List, Bytes, ℤ}

pub record Permission : Type 0 where
  pub read : Bool
  pub write : Bool

pub record AclEntry : Type 0 where
  pub user : Bytes
  pub perm : Permission

pub record CheckpointEntry : Type 0 where
  pub tag : Bytes
  pub user : Bytes
  pub timestamp : ℕ

-- The field hash_next stands in the file table.
pub record FileEntry : Type 0 where
  pub name : Bytes
  pub owner : Bytes
  pub ss_index : ℤ
  pub backup_index : ℤ
  pub word_count : ℕ
  pub char_count : ℕ
  pub created : ℕ
  pub modified : ℤ
  pub last_access : ℤ
  pub last_access_user : Bytes
  pub acl : List AclEntry
  pub checkpoints : List CheckpointEntry

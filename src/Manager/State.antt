-- ===== src/Manager/State.antt =====
-- nm/nm_state.h and nm/nm_state.c: the whole state of the name server, and the calls on it that go
-- through the file table. nm_state_save only writes it to the disk, so it is no step of the model.
use co_write_file_system.Prelude.{
  ℕ, zero, suc, Bool, true, false, List, [], ◌∷◌, Option, none, some, leb, if◌then◌else◌, ◌++◌,
  Bytes, length, str_eq, copy_into, ℤ, pos, negsuc,
}
use co_write_file_system.Manager.Entry.{Permission, FileEntry, AclEntry, CheckpointEntry}
use co_write_file_system.Manager.Files.{FileTable, alter, nm_find_file}
use co_write_file_system.Manager.Servers.{Servers}
use co_write_file_system.Manager.Cache.{CacheEntry, UserEntry}
use co_write_file_system.Manager.Access.{
  nm_grant_access, nm_remove_access, nm_check_access, with_acl, find_acl, checked,
}

pub data Status : Type 0 where
  pending approved denied : Status

pub record AccessRequest : Type 0 where
  pub file : Bytes
  pub owner : Bytes
  pub requester : Bytes
  pub perm : Permission
  pub status : Status

-- nm/nm_main.c: a ticket that a storage server was given for a client.
pub record TicketEntry : Type 0 where
  pub token : Bytes
  pub file : Bytes
  pub user : Bytes
  pub op : Bytes
  pub expiry : ℕ
  pub ss_index : ℤ

-- nm_state, and of nm_context the tickets.
pub record NmState : Type 0 where
  pub table : FileTable
  pub servers : Servers
  pub users : List UserEntry
  pub cache : List CacheEntry
  pub requests : List AccessRequest
  pub tickets : List TicketEntry

-- common/error.h: the codes that the handlers send.
pub data ReplyCode : Type 0 where
  err_no_auth err_not_found err_bad_req err_conflict err_unavailable err_internal err_exists :
      ReplyCode

-- send_ok and send_error_response, to the client of the command.
pub data ClientReply : Type 0 where
  send_ok : Bytes → ClientReply
  send_error_response : ReplyCode → Bytes → ClientReply

-- `none` is -1.
abbrev pub grant_of : FileTable → Bytes → Option (List AclEntry) → Option FileTable
grant_of t name none = none
grant_of t name (some acl) = some (alter t name (λ f. with_acl f acl))

abbrev pub grant_found :
    FileTable → Bytes → Bytes → Permission → Option FileEntry → Option FileTable
grant_found t name user perm none = none
grant_found t name user perm (some file) = grant_of t name (nm_grant_access 64 file user perm)

-- nm_grant_access, from the name of the file on.
unfoldable pub grant_access : FileTable → Bytes → Bytes → Permission → Option FileTable
grant_access t name user perm = grant_found t name user perm (nm_find_file t name)

-- nm_remove_access, from the name of the file on.
unfoldable pub remove_access : FileTable → Bytes → Bytes → FileTable
remove_access t name user = alter t name (λ f. with_acl f (nm_remove_access f.acl user))

abbrev pub check_found : Option FileEntry → Bytes → Permission → Bool
check_found none user perm = false
check_found (some file) user perm = nm_check_access file user perm

-- nm_check_access, from the name of the file on: whether the result is 0.
abbrev pub check_access : FileTable → Bytes → Bytes → Permission → Bool
check_access t name user perm = check_found (nm_find_file t name) user perm

abbrev pub is_empty : Bytes → Bool
is_empty [] = true
is_empty (c ∷ s) = false

-- Whether the result is 0.
unfoldable pub file_has_access : FileEntry → Bytes → Permission → Bool
file_has_access file user perm =
    if is_empty user
    then false
    else if str_eq file.owner user
    then true
    else checked perm (find_acl file.acl user)

unfoldable pub nm_update_file_location : FileTable → Bytes → ℤ → FileTable
nm_update_file_location t name ss_index = alter t name (λ f. record f { ss_index = ss_index })

abbrev pub unless_zero : ℤ → ℤ → ℤ
unless_zero (pos zero) old = old
unless_zero (pos (suc n)) old = pos (suc n)
unless_zero (negsuc n) old = negsuc n

abbrev pub with_metadata : ℕ → ℕ → ℤ → ℤ → Bytes → FileEntry → FileEntry
with_metadata words chars modified last_access last_user f = record f {
  word_count = words;
  char_count = chars;
  modified = unless_zero modified f.modified;
  last_access = unless_zero last_access f.last_access;
  last_access_user = if is_empty last_user then f.last_access_user else copy_into 64 last_user;
}

unfoldable pub nm_update_file_metadata : FileTable → Bytes → ℕ → ℕ → ℤ → ℤ → Bytes → FileTable
nm_update_file_metadata t name words chars modified last_access last_user =
    alter t name (with_metadata words chars modified last_access last_user)

unfoldable pub nm_file_find_checkpoint : List CheckpointEntry → Bytes → Option CheckpointEntry
nm_file_find_checkpoint [] tag = none
nm_file_find_checkpoint (entry ∷ rest) tag =
    if str_eq entry.tag tag then some entry else nm_file_find_checkpoint rest tag

-- ENOENT, EEXIST and ENOSPC.
pub data CheckpointResult : Type 0 where
  checkpoint_no_file checkpoint_exists checkpoint_no_space checkpoint_added : CheckpointResult

abbrev pub new_checkpoint : Bytes → Bytes → ℕ → CheckpointEntry
new_checkpoint tag user timestamp = record {
  tag = copy_into 128 tag;
  user = copy_into 64 user;
  timestamp = timestamp;
}

-- NM_MAX_CHECKPOINTS is 128.
abbrev pub add_checkpoint :
    FileTable
    → Bytes
    → Bytes
    → Bytes
    → ℕ
    → FileEntry
    → Option CheckpointEntry
    → FileTable × CheckpointResult
add_checkpoint t name tag user timestamp file (some entry) = (t, checkpoint_exists)
add_checkpoint t name tag user timestamp file none =
    if leb 128 (length file.checkpoints) then (t, checkpoint_no_space) else (
      alter t name
          (λ f. record f { checkpoints = f.checkpoints ++ new_checkpoint tag user timestamp ∷ [] }),
      checkpoint_added,
    )

abbrev pub checkpoint_found :
    FileTable → Bytes → Bytes → Bytes → ℕ → Option FileEntry → FileTable × CheckpointResult
checkpoint_found t name tag user timestamp none = (t, checkpoint_no_file)
checkpoint_found t name tag user timestamp (some file) =
    add_checkpoint t name tag user timestamp file (nm_file_find_checkpoint file.checkpoints tag)

unfoldable pub nm_file_add_checkpoint :
    FileTable → Bytes → Bytes → Bytes → ℕ → FileTable × CheckpointResult
nm_file_add_checkpoint t name tag user timestamp =
    checkpoint_found t name tag user timestamp (nm_find_file t name)

-- ===== src/Examples/Access.antt =====
-- Runs of a grant and a removal of access.
use co_write_file_system.Prelude.{
  ◌≡◌, refl, true, false, List, [], ◌∷◌, some, arith, codes, pos, str_eq,
}
use co_write_file_system.Manager.Entry.{Permission, AclEntry, FileEntry}
use co_write_file_system.Manager.Access.{
  find_acl, with_acl, nm_grant_access, nm_remove_access, nm_check_access,
}
use co_write_file_system.Manager.Access.Laws.{IsUnique, Grants, nm_grant_access_lem}

abbrev writing : Permission
writing = record { read = false; write = true }

abbrev reading : Permission
reading = record { read = true; write = false }

abbrev listed : FileEntry
listed = record {
  name = codes "f";
  owner = codes "o";
  ss_index = pos 0;
  backup_index = pos 1;
  word_count = 0;
  char_count = 0;
  created = 1;
  modified = pos 1;
  last_access = pos 1;
  last_access_user = codes "o";
  checkpoints = [];
  acl =
      record { user = codes "x"; perm = reading }
      ∷ record { user = codes "y"; perm = reading }
      ∷ [];
}

unique : IsUnique listed.acl
unfolding find_acl str_eq
unique = (refl, (refl, tt))

abbrev widened : List AclEntry
widened =
    record { user = codes "x"; perm = record { read = true; write = true } }
    ∷ record { user = codes "y"; perm = reading }
    ∷ []

grants : nm_grant_access 64 listed (codes "x") writing ≡ some widened
unfolding nm_grant_access str_eq find_acl co_write_file_system.Manager.Access.widen
grants = refl

nm_grant_access_lem_example : Grants listed (codes "x") writing widened
nm_grant_access_lem_example = nm_grant_access_lem 64 listed (codes "x") writing (omega arith) grants

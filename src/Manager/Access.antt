-- ===== src/Manager/Access.antt =====
-- nm/nm_state.c: who may read and write a file. The calls look the file up by its name first and
-- return -1 without one; here the file is an argument. An `int` of permissions is a set of the two
-- bits NM_PERM_READ and NM_PERM_WRITE.
pub mod Laws
use co_write_file_system.Manager.Entry.{Permission, AclEntry, FileEntry}
use co_write_file_system.Prelude.{
  ℕ, Bool, true, false, ◌&&◌, ◌||◌, not, List, [], ◌∷◌, ◌++◌, Option, none, some, leb,
  if◌then◌else◌, Bytes, length, str_eq, copy_into,
}

-- `a | b`, and `(a & b) == b`.
abbrev pub join : Permission → Permission → Permission
join a b = record { read = a.read || b.read; write = a.write || b.write }

abbrev pub allows : Permission → Permission → Bool
allows a b = (a.read || not b.read) && (a.write || not b.write)

unfoldable pub find_acl : List AclEntry → Bytes → Option AclEntry
find_acl [] user = none
find_acl (entry ∷ rest) user = if str_eq entry.user user then some entry else find_acl rest user

-- `entry->perm |= perm` on the entry that find_acl gives.
unfoldable pub widen : List AclEntry → Bytes → Permission → List AclEntry
widen [] user perm = []
widen (entry ∷ rest) user perm =
    if str_eq entry.user user
    then record entry { perm = join entry.perm perm } ∷ rest
    else entry ∷ widen rest user perm

abbrev pub new_entry : Bytes → Permission → AclEntry
new_entry user perm = record {
  user = copy_into 64 user;
  perm = join perm (record { read = true; write = false });
}

-- The list after a grant to someone other than the owner; `none` is -1, for a list of `most` entries.
abbrev pub grant_entry :
    ℕ → List AclEntry → Bytes → Permission → Option AclEntry → Option (List AclEntry)
grant_entry most acl user perm (some entry) = some (widen acl user perm)
grant_entry most acl user perm none =
    if leb most (length acl) then none else some (acl ++ new_entry user perm ∷ [])

-- NM_MAX_ACL is `most`.
unfoldable pub nm_grant_access : ℕ → FileEntry → Bytes → Permission → Option (List AclEntry)
nm_grant_access most file user perm =
    if str_eq file.owner user
    then some file.acl
    else grant_entry most file.acl user perm (find_acl file.acl user)

-- The last entry takes the place of the one removed, so in what stands behind it the last comes
-- first.
abbrev pub put_second : AclEntry → List AclEntry → List AclEntry
put_second entry [] = entry ∷ []
put_second entry (first ∷ rest) = first ∷ entry ∷ rest

unfoldable pub move_last : List AclEntry → List AclEntry
move_last [] = []
move_last (entry ∷ rest) = put_second entry (move_last rest)

-- The list after the call, whose result is 0 also when the user is not in the list.
unfoldable pub nm_remove_access : List AclEntry → Bytes → List AclEntry
unfolding move_last
nm_remove_access [] user = []
nm_remove_access (entry ∷ rest) user =
    if str_eq entry.user user then move_last rest else entry ∷ nm_remove_access rest user

abbrev pub with_acl : FileEntry → List AclEntry → FileEntry
with_acl file acl = record file { acl = acl }

abbrev pub checked : Permission → Option AclEntry → Bool
checked perm none = false
checked perm (some entry) = allows entry.perm perm

-- Whether the result is 0.
unfoldable pub nm_check_access : FileEntry → Bytes → Permission → Bool
unfolding find_acl
nm_check_access file user perm =
    if str_eq file.owner user then true else checked perm (find_acl file.acl user)

-- ===== src/Manager/Access/Laws.antt =====
-- nm/nm_state.c: what a grant and a removal do to the checks of the users.
use co_write_file_system.Prelude.{
  ℕ, ◌<◌, ◌≡◌, ◌≢◌, refl, subst, ap, ◌∙◌, inl, inr, Bool, true, false, List, [], ◌∷◌, ◌++◌, Option,
  none, some, arith, Bytes, length, if◌then◌else◌, str_eq, str_eq_iff, str_eq_refl, copy_into_fits,
  Bool-cases,
}
use co_write_file_system.Manager.Entry.{Permission, AclEntry, FileEntry}
use co_write_file_system.Manager.Access.{
  join, allows, find_acl, widen, new_entry, grant_entry, nm_grant_access, put_second, move_last,
  nm_remove_access, with_acl, checked, nm_check_access,
}

-- No user stands in the list twice.
abbrev pub IsUnique : List AclEntry → Type 0
IsUnique [] = Unit
IsUnique (entry ∷ rest) = (find_acl rest entry.user ≡ none) × IsUnique rest

find-put_second :
    (e : AclEntry) (m : List AclEntry) (q : Bytes)
    → find_acl m e.user ≡ none
    → find_acl (put_second e m) q ≡ find_acl (e ∷ m) q
unfolding find_acl
find-put_second e [] q h = refl
find-put_second e (l ∷ m) q h =
    ground (arith, str_eq_iff e.user q, str_eq_iff l.user q, str_eq_iff l.user e.user)

IsUnique-put_second :
    (e : AclEntry) (m : List AclEntry)
    → find_acl m e.user ≡ none
    → IsUnique m
    → IsUnique (put_second e m)
unfolding find_acl
IsUnique-put_second e [] h u = (refl, tt)
IsUnique-put_second e (l ∷ m) h (first, u) =
    ground (arith, str_eq_iff l.user e.user, str_eq_iff e.user l.user)

find-move_last :
    (acl : List AclEntry) (q : Bytes) → IsUnique acl → find_acl (move_last acl) q ≡ find_acl acl q
unfolding move_last find_acl
find-move_last [] q u = refl
find-move_last (e ∷ acl) q (first, u) =
    let same = find-move_last acl q u in
    find-put_second e (move_last acl) q (find-move_last acl e.user u ∙ first)
    ∙ ap (λ r. if str_eq e.user q then some e else r) same

IsUnique-move_last : (acl : List AclEntry) → IsUnique acl → IsUnique (move_last acl)
unfolding move_last
IsUnique-move_last [] u = tt
IsUnique-move_last (e ∷ acl) (first, u) =
    IsUnique-put_second e (move_last acl) (find-move_last acl e.user u ∙ first)
      (IsUnique-move_last acl u)

find-remove :
    (acl : List AclEntry) (user q : Bytes)
    → IsUnique acl
    → find_acl (nm_remove_access acl user) q ≡ (if str_eq user q then none else find_acl acl q)
unfolding nm_remove_access find_acl
find-remove [] user q u = ground arith
find-remove (e ∷ acl) user q (first, u) =
    let later = find-remove acl user q u in
    let moved = find-move_last acl q u in
    ground (arith, str_eq_iff e.user user, str_eq_iff e.user q, str_eq_iff user q)

IsUnique-remove :
    (acl : List AclEntry) (user : Bytes) → IsUnique acl → IsUnique (nm_remove_access acl user)
unfolding nm_remove_access
IsUnique-remove [] user u = tt
IsUnique-remove (e ∷ acl) user (first, u) = elim (Bool-cases (str_eq e.user user)) [
  | inl q ↦ rw (q, nm_remove_access) (IsUnique-move_last acl u)
  | inr q ↦
      rw (q, nm_remove_access)
        (
          find-remove acl user e.user u
              ∙ ap (λ r. if str_eq user e.user then none else r) first
              ∙ ground arith,
          IsUnique-remove acl user u,
        )
]

find-widen :
    (acl : List AclEntry) (user q : Bytes) (perm : Permission)
    → q ≢ user
    → find_acl (widen acl user perm) q ≡ find_acl acl q
unfolding find_acl widen
find-widen [] user q perm n = refl
find-widen (e ∷ acl) user q perm n =
    ground (arith, str_eq_iff e.user user, str_eq_iff e.user q, find-widen acl user q perm n)

find-widen_self :
    (acl : List AclEntry) (user : Bytes) (perm : Permission) (entry : AclEntry)
    → find_acl acl user ≡ some entry
    → find_acl (widen acl user perm) user ≡ some (record entry { perm = join entry.perm perm })
unfolding find_acl widen
find-widen_self [] user perm entry h = cc h
find-widen_self (e ∷ acl) user perm entry h = ground (arith, find-widen_self acl user perm entry)

find-append :
    (acl : List AclEntry) (entry : AclEntry) (q : Bytes)
    → find_acl (acl ++ entry ∷ []) q ≡ elim (find_acl acl q) [
      | some e ↦ some e
      | none ↦ if str_eq entry.user q then some entry else none
    ]
unfolding find_acl
find-append [] entry q = refl
find-append (e ∷ acl) entry q = ground (arith, find-append acl entry q)

allows-join : (a b : Permission) → (allows (join a b) b ≡ true) × (allows (join b a) b ≡ true)
allows-join a b = ground arith

widen-none :
    (acl : List AclEntry) (user q : Bytes) (perm : Permission)
    → find_acl acl q ≡ none
    → find_acl (widen acl user perm) q ≡ none
unfolding find_acl widen
widen-none [] user q perm h = refl
widen-none (e ∷ acl) user q perm h = ground (arith, widen-none acl user q perm)

IsUnique-widen :
    (acl : List AclEntry) (user : Bytes) (perm : Permission)
    → IsUnique acl
    → IsUnique (widen acl user perm)
unfolding widen
IsUnique-widen [] user perm u = tt
IsUnique-widen (e ∷ acl) user perm (first, u) = elim (Bool-cases (str_eq e.user user)) [
  | inl q ↦ rw (q, widen) (first, u)
  | inr q ↦ rw (q, widen) (widen-none acl user e.user perm first, IsUnique-widen acl user perm u)
]

IsUnique-append :
    (acl : List AclEntry) (entry : AclEntry)
    → IsUnique acl
    → find_acl acl entry.user ≡ none
    → IsUnique (acl ++ entry ∷ [])
unfolding find_acl
IsUnique-append [] entry u h = (refl, tt)
IsUnique-append (e ∷ acl) entry (first, u) h =
    let other : find_acl acl entry.user ≡ none = ground arith in
    let found = find-append acl entry e.user in
    (
      ground (arith, found, str_eq_iff e.user entry.user, str_eq_iff entry.user e.user),
      IsUnique-append acl entry u other,
    )

-- The checks of everyone but the user are as before.
abbrev pub LeavesOthers : FileEntry → Bytes → List AclEntry → Type 0
LeavesOthers file user after =
    (q : Bytes) (perm : Permission)
    → q ≢ user
    → nm_check_access (with_acl file after) q perm ≡ nm_check_access file q perm

check_same :
    (file : FileEntry) (after : List AclEntry) (q : Bytes) (perm : Permission)
    → find_acl after q ≡ find_acl file.acl q
    → nm_check_access (with_acl file after) q perm ≡ nm_check_access file q perm
unfolding nm_check_access
check_same file after q perm h = ap (λ o. if str_eq file.owner q then true else checked perm o) h

-- For a list in which no user stands twice: after a removal every check of the user fails, unless
-- the user is the owner, the checks of everyone else are as before, and again no user stands in the
-- list twice.
pub nm_remove_access_lem :
    (file : FileEntry) (user : Bytes)
    → IsUnique file.acl
    → (file.owner ≢ user
        → (perm : Permission)
        → nm_check_access (with_acl file (nm_remove_access file.acl user)) user perm ≡ false)
      × LeavesOthers file user (nm_remove_access file.acl user)
      × IsUnique (nm_remove_access file.acl user)
unfolding nm_check_access
nm_remove_access_lem file user u = (
  (λ n perm.
      ground
        (arith, find-remove file.acl user user u, str_eq_iff file.owner user, str_eq_refl user)),
  (λ q perm n.
      check_same file _ q perm (find-remove file.acl user q u ∙ ground (arith, str_eq_iff user q))),
  IsUnique-remove file.acl user u,
)

-- What a grant that succeeds gives.
abbrev pub Grants : FileEntry → Bytes → Permission → List AclEntry → Type 0
Grants file user perm after =
    (nm_check_access (with_acl file after) user perm ≡ true)
    × LeavesOthers file user after
    × (IsUnique file.acl → IsUnique after)

grant-owner :
    (file : FileEntry) (user : Bytes) (perm : Permission)
    → str_eq file.owner user ≡ true
    → Grants file user perm file.acl
unfolding nm_check_access
grant-owner file user perm e = (rw e refl, (λ q p n. refl), (λ u. u))

grant-widen :
    (file : FileEntry) (user : Bytes) (perm : Permission) (entry : AclEntry)
    → find_acl file.acl user ≡ some entry
    → Grants file user perm (widen file.acl user perm)
unfolding nm_check_access
grant-widen file user perm entry h = (
  ground (arith, find-widen_self file.acl user perm entry h, (allows-join entry.perm perm).0),
  (λ q p n. check_same file _ q p (find-widen file.acl user q perm n)),
  IsUnique-widen file.acl user perm,
)

grant-append :
    (file : FileEntry) (user : Bytes) (perm : Permission)
    → length user < 64
    → find_acl file.acl user ≡ none
    → Grants file user perm (file.acl ++ new_entry user perm ∷ [])
unfolding nm_check_access
grant-append file user perm fits h =
    let same = copy_into_fits 64 user (omega arith) in
    (
      ground (arith, find-append file.acl (new_entry user perm) user, same, str_eq_refl user, h),
      (λ q p n.
          check_same file _ q p (
            ground (arith, find-append file.acl (new_entry user perm) q, same, str_eq_iff user q))),
      (λ u. IsUnique-append file.acl (new_entry user perm) u (rw same h)),
    )

if_some :
    (b : Bool) (x after : List AclEntry) → (if b then none else some x) ≡ some after → x ≡ after
if_some true x after h = cc h
if_some false x after h = cc h

grant_from :
    (most : ℕ) (file : FileEntry) (user : Bytes) (perm : Permission) (after : List AclEntry)
    (owns : Bool) (entry : Option AclEntry)
    → length user < 64
    → str_eq file.owner user ≡ owns
    → find_acl file.acl user ≡ entry
    → (if owns then some file.acl else grant_entry most file.acl user perm entry) ≡ some after
    → Grants file user perm after
grant_from most file user perm after true entry fits e f h =
    let same : file.acl ≡ after = cc h in
    subst (Grants file user perm) same (grant-owner file user perm e)
grant_from most file user perm after false (some entry) fits e f h =
    let same : widen file.acl user perm ≡ after = cc h in
    subst (Grants file user perm) same (grant-widen file user perm entry f)
grant_from most file user perm after false none fits e f h =
    subst (Grants file user perm) (if_some _ _ after h) (grant-append file user perm fits f)

-- For a user name that fits its field: after a grant that succeeds, the check of the user for that
-- permission succeeds, the checks of everyone else are as before, and if no user stood in the list
-- twice, none does now.
pub nm_grant_access_lem :
    (most : ℕ) (file : FileEntry) (user : Bytes) (perm : Permission) {after : List AclEntry}
    → length user < 64
    → nm_grant_access most file user perm ≡ some after
    → Grants file user perm after
unfolding nm_grant_access
nm_grant_access_lem most file user perm {after} fits h =
    grant_from most file user perm after (str_eq file.owner user) (find_acl file.acl user) fits refl
      refl h

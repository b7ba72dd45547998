-- ===== src/Manager/Requests/Tables.antt =====
-- nm/nm_main.c: what the commands of access do to the files: only those of the client's own are
-- changed.
use co_write_file_system.Prelude.{
  ◌<◌, ◌≡◌, ◌≢◌, refl, inl, inr, sym, ap, subst, ◌∙◌, true, false, Option, none, some, arith, Bytes,
  length, Bool-cases, Option-cases, str_eq, str_eq_iff, str_eq_refl,
}
use co_write_file_system.Manager.Entry.{Permission, FileEntry}
use co_write_file_system.Manager.Access.{with_acl, nm_grant_access, nm_remove_access}
use co_write_file_system.Manager.Access.Laws.{IsUnique, nm_grant_access_lem, nm_remove_access_lem}
use co_write_file_system.Manager.Files.{FileTable, alter, nm_find_file}
use co_write_file_system.Manager.Files.Map.{IsValid}
use co_write_file_system.Manager.Files.Alters.{Alters, alter-Alters}
use co_write_file_system.Manager.State.{
  grant_access, grant_of, remove_access, check_access, check_found,
}

-- The table is valid, and in no access list a user stands twice.
pub record IsSound (t : FileTable) : Type 0 where
  pub valid : IsValid t
  pub unique : (q : Bytes) (f : FileEntry) → nm_find_file t q ≡ some f → IsUnique f.acl

-- The entry that a name finds has the name and the owner that it had, and is there if it was.
abbrev pub StaysFile : Option FileEntry → Option FileEntry → Type 0
StaysFile none none = Unit
StaysFile none (some g) = ⊥
StaysFile (some f) none = ⊥
StaysFile (some f) (some g) = (g.name ≡ f.name) × (g.owner ≡ f.owner)

-- The files of which the user is not the owner are as before, and no file comes or goes or has
-- another owner.
abbrev pub LeavesFiles : FileTable → FileTable → Bytes → Type 0
LeavesFiles t after user =
    ((q : Bytes) (f : FileEntry)
      → nm_find_file t q ≡ some f
      → f.owner ≢ user
      → nm_find_file after q ≡ some f)
    × ((q : Bytes) → StaysFile (nm_find_file t q) (nm_find_file after q))

abbrev pub Owned : FileTable → FileTable → Bytes → Type 0
Owned t after user = IsSound after × LeavesFiles t after user

refl-StaysFile : (o : Option FileEntry) → StaysFile o o
refl-StaysFile none = tt
refl-StaysFile (some f) = (refl, refl)

pub same-Owned : (t : FileTable) (user : Bytes) → IsSound t → Owned t t user
same-Owned t user v = (v, (λ q f h n. h, λ q. refl-StaysFile (nm_find_file t q)))

module _ (t : FileTable) (name user : Bytes) (g : FileEntry → FileEntry) (file : FileEntry)
    (v : IsSound t) (found : nm_find_file t name ≡ some file) (mine : file.owner ≡ user)
    (a : Alters t (alter t name g) name g) (fine : IsUnique file.acl → IsUnique (g file).acl)
    (held : ((g file).name ≡ file.name) × ((g file).owner ≡ file.owner)) where
  abbrev altered : FileTable
  altered = alter t name g

  here : nm_find_file altered name ≡ some (g file)
  here = a.1 name ∙ rw (str_eq_refl name, found) refl

  away : (q : Bytes) → str_eq name q ≡ false → nm_find_file altered q ≡ nm_find_file t q
  away q e = a.1 q ∙ rw e refl

  altered-IsSound : IsSound altered
  altered-IsSound = record {
    valid = a.0;
    unique = λ q f h. elim (Bool-cases (str_eq name q)) [
      | inl e ↦
          let same : g file ≡ f =
            ground (arith, sym here ∙ ap (nm_find_file altered) ((str_eq_iff name q).0 e) ∙ h) in
          subst (λ x. IsUnique x.acl) same (fine (v.unique name file found))
      | inr e ↦ v.unique q f (sym (away q e) ∙ h)
    ];
  }

  altered-LeavesFiles : LeavesFiles t altered user
  altered-LeavesFiles = (
    λ q f h n. elim (Bool-cases (str_eq name q)) [
      | inl e ↦
          let same : file ≡ f =
            ground (arith, sym found ∙ ap (nm_find_file t) ((str_eq_iff name q).0 e) ∙ h) in
          absurd (n (ap (λ x. x.owner) (sym same) ∙ mine))
      | inr e ↦ away q e ∙ h
    ],
    λ q. elim (Bool-cases (str_eq name q)) [
      | inl e ↦
          let same = ap (nm_find_file t) ((str_eq_iff name q).0 e) in
          let moved = ap (nm_find_file altered) ((str_eq_iff name q).0 e) in
          rw (← same, ← moved, found, here) held
      | inr e ↦ rw (away q e) (refl-StaysFile (nm_find_file t q))
    ],
  )

  pub alter-Owned : Owned t altered user × (nm_find_file altered name ≡ some (g file))
  alter-Owned = ((altered-IsSound, altered-LeavesFiles), here)

module _ (t : FileTable) (name user target : Bytes) (file : FileEntry) (v : IsSound t)
    (found : nm_find_file t name ≡ some file) (mine : file.owner ≡ user) where
  step :
      (perm : Permission)
      → grant_access t name target perm ≡ grant_of t name (nm_grant_access 64 file target perm)
  unfolding grant_access
  step perm = rw found refl

  -- A grant by the owner that succeeds.
  pub grant-Owned :
      (perm : Permission) (after : FileTable)
      → length target < 64
      → grant_access t name target perm ≡ some after
      → Owned t after user × (check_access after name target perm ≡ true)
  grant-Owned perm after fits h = elim (Option-cases (nm_grant_access 64 file target perm)) [
    | inl e ↦ absurd (cc (sym h ∙ step perm ∙ ap (grant_of t name) e))
    | inr (acl, e) ↦
        let done : alter t name (λ f. with_acl f acl) ≡ after =
          ground (arith, sym (ap (grant_of t name) e) ∙ sym (step perm) ∙ h) in
        let grants = nm_grant_access_lem 64 file target perm fits e in
        let (owned, here) =
          alter-Owned t name user (λ f. with_acl f acl) file v found mine
            (alter-Alters t name _ v.valid (λ f h. refl)) grants.2 (refl, refl) in
        subst (λ x. Owned t x user × (check_access x name target perm ≡ true)) done
          (owned, ap (λ o. check_found o target perm) here ∙ grants.0)
  ]

  -- A removal by the owner.
  pub remove-Owned :
      Owned t (remove_access t name target) user
      × (file.owner ≢ target
          → (perm : Permission)
          → check_access (remove_access t name target) name target perm ≡ false)
  unfolding remove_access
  remove-Owned =
      let removes = nm_remove_access_lem file target (v.unique name file found) in
      let (owned, here) =
        alter-Owned t name user _ file v found mine
          (alter-Alters t name (λ f. with_acl f (nm_remove_access f.acl target)) v.valid
            (λ f h. refl))
          (λ u. removes.2) (refl, refl) in
      (owned, λ n perm. ap (λ o. check_found o target perm) here ∙ removes.0 n perm)

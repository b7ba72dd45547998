-- ===== src/Manager/Create/Laws.antt =====
-- nm/nm_main.c: CREATE makes one file, or none.
use co_write_file_system.Prelude.{
  ℕ, zero, suc, ◌+◌, ◌⊎◌, not, ◌&&◌, negsuc, Bool, false, ◌<◌, ◌≡◌, ◌≢◌, refl, inl, inr, sym, ap,
  subst, ◌∙◌, true, List, [], ◌∷◌, none, some, if◌then◌else◌, arith, Bytes, length, str_eq,
  str_eq_refl, copy_into_fits, Bool-cases, ℤ, pos, eq_ℤ, eq_ℤ_iff,
}
use co_write_file_system.Manager.Entry.{FileEntry}
use co_write_file_system.Manager.Access.{with_acl, nm_grant_access}
use co_write_file_system.Manager.Access.Laws.{IsUnique}
use co_write_file_system.Manager.Files.{FileTable, added_file, alter, nm_add_file, nm_find_file}
use co_write_file_system.Manager.Files.Adds.{nm_add_file-adds}
use co_write_file_system.Manager.Files.Alters.{alter-Alters}
use co_write_file_system.Manager.Servers.{StorageServer, server_is_available, available_at}
use co_write_file_system.Manager.State.{grant_access, grant_found}
use co_write_file_system.Manager.Requests.Tables.{IsSound}
use co_write_file_system.Manager.Tickets.{Answers, accepted}
use co_write_file_system.Manager.Create.{backup_from, owner_perm, or_same}

-- Whether the server at the place `j` behind the index `i` can be the backup: it is not the primary, it
-- is available, and it accepts the file.
abbrev pub takes : Answers → Bytes → ℕ → List StorageServer → ℕ → ℕ → Bool
takes answers payload primary servers i j =
    not (eq_ℤ (pos (i + j)) (pos primary))
    && (available_at servers j && accepted (answers (pos (i + j)) payload))

-- The first place for which the test holds, from the index `i` on, or -1 when there is none.
abbrev pub IsFirstPlace : (ℕ → Bool) → ℕ → ℤ → Type 0
IsFirstPlace good i backup =
    ((backup ≡ negsuc 0) × ((j : ℕ) → good j ≡ false))
    ⊎ ((j : ℕ) × (backup ≡ pos (i + j)) × (good j ≡ true) × ((m : ℕ) → m < j → good m ≡ false))

later-IsFirstPlace :
    (good after : ℕ → Bool) (i : ℕ) (backup : ℤ)
    → good zero ≡ false
    → ((j : ℕ) → good (suc j) ≡ after j)
    → IsFirstPlace after (suc i) backup
    → IsFirstPlace good i backup
later-IsFirstPlace good after i backup bad shift (inl (e, none_at)) = inl (e, λ j. all j)
  where
    all : (j : ℕ) → good j ≡ false
    all zero = bad
    all (suc j) = shift j ∙ none_at j
later-IsFirstPlace good after i backup bad shift (inr (j, e, at, before)) =
    inr (suc j, e ∙ ap pos (omega arith), shift j ∙ at, λ m h. all m h)
  where
    all : (m : ℕ) → m < suc j → good m ≡ false
    all zero h = bad
    all (suc m) h = shift m ∙ before m (omega arith)

-- The loop takes the first server that can be the backup.
pub backup_from-IsFirstPlace :
    (answers : Answers) (payload : Bytes) (primary : ℕ) (servers : List StorageServer) (i : ℕ)
    → IsFirstPlace
        (takes answers payload primary servers i)
        i
        (backup_from answers payload primary servers i)
unfolding backup_from
backup_from-IsFirstPlace answers payload primary [] i = inl (refl, λ j. no_server j)
  where
    no_server : (j : ℕ) → takes answers payload primary [] i j ≡ false
    no_server j = elim (Bool-cases (eq_ℤ (pos (i + j)) (pos primary))) [
      | inl e ↦ rw e refl
      | inr e ↦ rw e refl
    ]
backup_from-IsFirstPlace answers payload primary (s ∷ servers) i =
    let start : i + 0 ≡ i = omega arith in
    let later = backup_from-IsFirstPlace answers payload primary servers (suc i) in
    let shift : (j : ℕ)
        → takes answers payload primary (s ∷ servers) i (suc j)
          ≡ takes answers payload primary servers (suc i) j =
      λ j.
        ap
          (λ n.
            not (eq_ℤ (pos n) (pos primary))
            && (available_at servers j && accepted (answers (pos n) payload)))
          (omega arith) in
    elim (Bool-cases (eq_ℤ (pos i) (pos primary))) [
      | inl e ↦ rw (e, backup_from) (later-IsFirstPlace _ _ i _ (rw (start, e) refl) shift later)
      | inr e ↦ elim (Bool-cases (server_is_available (some s))) [
        | inl on ↦ elim (Bool-cases (accepted (answers (pos i) payload))) [
          | inl yes_ok ↦
              rw (e, on, yes_ok, backup_from)
                (inr (
                  0,
                  ap pos (sym start),
                  rw (start, e, on, yes_ok) refl,
                  λ m h. absurd (omega arith),
                ))
          | inr refused ↦
              rw (e, on, refused, backup_from)
                (later-IsFirstPlace _ _ i _ (rw (start, e, on, refused) refl) shift later)
        ]
        | inr off ↦
            rw (e, off, backup_from)
              (later-IsFirstPlace _ _ i _ (rw (start, e, off) refl) shift later)
      ]
    ]

-- The backup is another server than the primary.
pub backup_from_ne :
    (answers : Answers) (payload : Bytes) (primary : ℕ) (servers : List StorageServer) (i : ℕ)
    → backup_from answers payload primary servers i ≢ pos primary
unfolding backup_from
backup_from_ne answers payload primary [] i = λ e. cc e
backup_from_ne answers payload primary (s ∷ servers) i =
    let later = backup_from_ne answers payload primary servers (suc i) in
    elim (Bool-cases (eq_ℤ (pos i) (pos primary))) [
      | inl e ↦ rw (e, backup_from) later
      | inr e ↦ elim (Bool-cases (server_is_available (some s))) [
        | inl on ↦ elim (Bool-cases (accepted (answers (pos i) payload))) [
          | inl yes_ok ↦
              rw (e, on, yes_ok, backup_from)
                (λ z. cc (sym e ∙ (eq_ℤ_iff (pos i) (pos primary)).1 z))
          | inr refused ↦ rw (e, on, refused, backup_from) later
        ]
        | inr off ↦ rw (e, off, backup_from) later
      ]
    ]

-- The table with one file more.
abbrev pub Holds : FileTable → FileTable → Bytes → FileEntry → Type 0
Holds t after name file =
    IsSound after
    × ((q : Bytes) → nm_find_file after q ≡ (if str_eq name q then some file else nm_find_file t q))

module _ (t : FileTable) (name user : Bytes) (primary backup : ℤ) (now : ℕ) (v : IsSound t)
    (short : length name < 128) (fits : length user < 64) (absent : nm_find_file t name ≡ none)
    (room : length t.files < 512) where
  abbrev file : FileEntry
  file = added_file name user primary backup now

  abbrev after : FileTable
  after = (nm_add_file t name user primary backup now).0

  added :
      (q : Bytes) → nm_find_file after q ≡ (if str_eq name q then some file else nm_find_file t q)
  added = (nm_add_file-adds t name user primary backup now v.valid room short absent).2

  added_self : nm_find_file after name ≡ some file
  added_self = added name ∙ rw (str_eq_refl name) refl

  granted : grant_access after name user owner_perm ≡ some (alter after name (λ f. with_acl f []))
  unfolding grant_access nm_grant_access
  granted =
      let mine : file.owner ≡ user = copy_into_fits 64 user (omega arith) in
      let owns : str_eq file.owner user ≡ true = ap (λ s. str_eq s user) mine ∙ str_eq_refl user in
      ap (grant_found after name user owner_perm) added_self ∙ rw owns refl

  final_finds :
      (q : Bytes)
      → nm_find_file (alter after name (λ f. with_acl f [])) q
        ≡ (if str_eq name q then some file else nm_find_file t q)
  final_finds q =
      let valid = (nm_add_file-adds t name user primary backup now v.valid room short absent).1 in
      let finds = (alter-Alters after name (λ f. with_acl f []) valid (λ f h. refl)).1 in
      finds q ∙ elim (Bool-cases (str_eq name q)) [
        | inl e ↦ rw (e, added q, e) refl
        | inr e ↦ rw (e, added q, e) refl
      ]

  pub created-Holds : Holds t (or_same after (grant_access after name user owner_perm)) name file
  created-Holds = rw granted (
    record {
      valid =
          (alter-Alters after name (λ f. with_acl f [])
            (nm_add_file-adds t name user primary backup now v.valid room short absent).1
            (λ f h. refl)).0;
      unique = λ q f h. elim (Bool-cases (str_eq name q)) [
        | inl e ↦
            let same : file ≡ f = ground (arith, e, sym (final_finds q) ∙ h) in
            subst (λ x. IsUnique x.acl) same tt
        | inr e ↦ v.unique q f (ground (arith, e, sym (final_finds q) ∙ h))
      ];
    },
    final_finds,
  )

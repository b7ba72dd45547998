-- ===== src/Manager/Files/Adds.antt =====
-- nm/nm_state.c: nm_add_file, against the files by name.
use co_write_file_system.Prelude.{
  ℕ, ◌≤◌, ◌<◌, ◌≡◌, ◌≢◌, refl, inl, inr, sym, ap, subst, ◌∙◌, true, false, List, [], ◌∷◌, ◌++◌,
  Option, none, some, leb, ◌==◌, if◌then◌else◌, arith, Bytes, length, length-append, get_elem?,
  str_eq, str_eq_iff, copy_into_fits, Bool-cases, Option-cases, ℤ,
}
use co_write_file_system.Manager.Entry.{FileEntry}
use co_write_file_system.Manager.Files.{
  FileTable, no_space, exists, Outcome, done, failed, bucket_of, assign, added_file, append_file,
  file_hash_insert, find_file_index, nm_find_file, nm_add_file, file_at,
}
use co_write_file_system.Manager.Files.Walks.{name_at, get_elem?-name_at}
use co_write_file_system.Manager.Files.Index.{IsIndexed}
use co_write_file_system.Manager.Files.Relink.{file_hash_insert-IsIndexed}
use co_write_file_system.Manager.Files.Valid.{
  append_file-IsIndexed, name_at-append, IsIndexed-agree,
}
use co_write_file_system.Manager.Files.Map.{
  IsValid, IsDistinct, Locates, find_file_index-Locates, first_named, nm_find_file-first_named,
}

pub file_hash_insert-files : (t : FileTable) (i : ℕ) → (file_hash_insert t i).files ≡ t.files
unfolding file_hash_insert
file_hash_insert-files t i = elim (Option-cases (get_elem? t.files i)) [
  | inl e ↦ rw (e, file_hash_insert) refl
  | inr (f, e) ↦ rw (e, file_hash_insert) refl
]

name_at_new :
    (files : List FileEntry) (f : FileEntry) (k : ℕ)
    → (k == length files) ≡ true
    → name_at (files ++ f ∷ []) k ≡ f.name
name_at_new files f k e = name_at-append files f k ∙ rw e refl

name_at_old :
    (files : List FileEntry) (f : FileEntry) (k : ℕ)
    → (k == length files) ≡ false
    → name_at (files ++ f ∷ []) k ≡ name_at files k
name_at_old files f k e = name_at-append files f k ∙ rw e refl

append-IsDistinct :
    (files : List FileEntry) (f : FileEntry)
    → IsDistinct files
    → ((k : ℕ) → k < length files → name_at files k ≢ f.name)
    → IsDistinct (files ++ f ∷ [])
append-IsDistinct files f d fresh = λ i j p q e. elim (Bool-cases (i == length files)) [
  | inl a ↦ elim (Bool-cases (j == length files)) [
    | inl b ↦ ground arith
    | inr b ↦
        absurd
          (fresh j (inside j q b) (sym (name_at_old files f j b) ∙ sym e ∙ name_at_new files f i a))
  ]
  | inr a ↦ elim (Bool-cases (j == length files)) [
    | inl b ↦
        absurd
          (fresh i (inside i p a) (sym (name_at_old files f i a) ∙ e ∙ name_at_new files f j b))
    | inr b ↦
        d i j (inside i p a) (inside j q b)
          (sym (name_at_old files f i a) ∙ e ∙ name_at_old files f j b)
  ]
]
  where
    inside : (k : ℕ) → k < length (files ++ f ∷ []) → (k == length files) ≡ false → k < length files
    inside k p e = let long = length-append files (f ∷ []) in ground arith

module _ (t : FileTable) (f : FileEntry) (v : IsValid t)
    (fresh : (k : ℕ) → k < length t.files → name_at t.files k ≢ f.name) where
  abbrev after : FileTable
  after = file_hash_insert (append_file t f) (length t.files)

  after-files : after.files ≡ t.files ++ f ∷ []
  after-files = file_hash_insert-files (append_file t f) (length t.files)

  abbrev chains : ℕ → List ℕ
  chains =
      assign v.chains (bucket_of (name_at (t.files ++ f ∷ []) (length t.files)))
        (length t.files ∷ v.chains (bucket_of (name_at (t.files ++ f ∷ []) (length t.files))))

  after-IsIndexed : IsIndexed after (λ k. true) chains
  after-IsIndexed =
      IsIndexed-agree after _ (λ k. true) chains (λ k h. ground arith)
        (file_hash_insert-IsIndexed (append_file t f) _ v.chains
          (append_file-IsIndexed t f v.chains v.indexed) (length t.files)
          (omega (arith, length-append t.files (f ∷ []))) (ground arith))

  pub append_new-IsValid : IsValid after
  append_new-IsValid = record {
    chains = chains;
    indexed = after-IsIndexed;
    distinct = rw after-files (append-IsDistinct t.files f v.distinct fresh);
  }

first_named-append_hit :
    (files : List FileEntry) (f : FileEntry) (q : Bytes)
    → f.name ≡ q
    → first_named files q ≡ none
    → first_named (files ++ f ∷ []) q ≡ some f
unfolding first_named
first_named-append_hit [] f q e h = rw ((str_eq_iff f.name q).1 e) refl
first_named-append_hit (g ∷ files) f q e h = elim (Bool-cases (str_eq g.name q)) [
  | inl a ↦ absurd (ground (arith, h))
  | inr a ↦ rw a (first_named-append_hit files f q e (sym (rw a refl) ∙ h))
]

first_named-append_miss :
    (files : List FileEntry) (f : FileEntry) (q : Bytes)
    → str_eq f.name q ≡ false
    → first_named (files ++ f ∷ []) q ≡ first_named files q
unfolding first_named
first_named-append_miss [] f q e = rw e refl
first_named-append_miss (g ∷ files) f q e = rw (first_named-append_miss files f q e) refl

pub find_file_index-none :
    (t : FileTable) (q : Bytes) → IsValid t → nm_find_file t q ≡ none → find_file_index t q ≡ none
find_file_index-none t q v h = from _ (find_file_index-Locates t q v) (unfold nm_find_file in h)
  where
    from : (r : Option ℕ) → Locates t.files q r → file_at t.files r ≡ none → r ≡ none
    from none l e = refl
    from (some i) (l, _) e = let (f, at, _) = get_elem?-name_at t.files i l in absurd (cc (at, e))

pub find_file_index-some :
    (t : FileTable) (q : Bytes) (f : FileEntry)
    → nm_find_file t q ≡ some f
    → (i : ℕ) × (find_file_index t q ≡ some i)
unfolding nm_find_file
find_file_index-some t q f h = elim (Option-cases (find_file_index t q)) [
  | inl e ↦ absurd (ground (arith, h, e))
  | inr found ↦ found
]

module _ (t : FileTable) (name owner : Bytes) (ss_index backup_index : ℤ) (now : ℕ) where
  abbrev added : FileTable × Outcome
  added = nm_add_file t name owner ss_index backup_index now

  -- A full table, of 512 files, refuses the file with ENOSPC, and stays.
  pub nm_add_file-full : 512 ≤ length t.files → added ≡ (t, failed no_space)
  unfolding nm_add_file
  nm_add_file-full h = let e : leb 512 (length t.files) ≡ true = ground arith in rw e refl

  -- A name that a file has is refused with EEXIST, and the table stays.
  pub nm_add_file-exists :
      (f : FileEntry)
      → length t.files < 512
      → nm_find_file t name ≡ some f
      → added ≡ (t, failed exists)
  unfolding nm_add_file
  nm_add_file-exists f h found =
      let e : leb 512 (length t.files) ≡ false = ground arith in
      let (i, at) = find_file_index-some t name f found in rw (e, at) refl

  module _ (v : IsValid t) (room : length t.files < 512) (fits : length name < 128)
      (absent : nm_find_file t name ≡ none) where
    abbrev file : FileEntry
    file = added_file name owner ss_index backup_index now

    add_step : added ≡ (file_hash_insert (append_file t file) (length t.files), done)
    unfolding nm_add_file
    add_step =
        let e : leb 512 (length t.files) ≡ false = ground arith in
        rw (e, find_file_index-none t name v absent) refl

    named : file.name ≡ name
    named = copy_into_fits 128 name (omega arith)

    fresh : (k : ℕ) → k < length t.files → name_at t.files k ≢ file.name
    fresh k h e =
        subst (Locates t.files name) (find_file_index-none t name v absent)
          (find_file_index-Locates t name v) k h (e ∙ named)

    added-IsValid : IsValid added.0
    added-IsValid = rw add_step (append_new-IsValid t file v fresh)

    found_after :
        (q : Bytes)
        → nm_find_file added.0 q ≡ (if str_eq name q then some file else nm_find_file t q)
    found_after q =
        let absent_first = sym (nm_find_file-first_named t name v) ∙ absent in
        nm_find_file-first_named added.0 q added-IsValid
        ∙ ap (λ x. first_named x.0.files q) add_step
        ∙ ap (λ fs. first_named fs q) (after-files t file v fresh)
        ∙ elim (Bool-cases (str_eq name q)) [
          | inl e ↦
              let same = (str_eq_iff name q).0 e in
              rw e (
                first_named-append_hit t.files file q (named ∙ same)
                  (ap (first_named t.files) (sym same) ∙ absent_first))
          | inr e ↦ rw e (
              first_named-append_miss t.files file q (ap (λ s. str_eq s q) named ∙ e)
              ∙ sym (nm_find_file-first_named t q v))
        ]

    -- With room for one more file, a name that no file has and that fits in its field is added:
    -- the table stays valid, the new file is found by its name, and each other name finds what it
    -- found before.
    pub nm_add_file-adds :
        (added.1 ≡ done)
        × IsValid added.0
        × ((q : Bytes)
            → nm_find_file added.0 q ≡ (if str_eq name q then some file else nm_find_file t q))
    nm_add_file-adds = (ap (λ x. x.1) add_step, added-IsValid, found_after)

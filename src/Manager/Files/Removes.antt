-- ===== src/Manager/Files/Removes.antt =====
-- nm/nm_state.c: nm_remove_file, against the files by name.
use co_write_file_system.Prelude.{
  ℕ, suc, ◌-◌, ◌<◌, ◌≡◌, refl, inl, inr, sym, ap, subst, ◌∙◌, true, false, List, none, some, ◌==◌,
  if◌then◌else◌, arith, Bytes, length, get_elem?, set, str_eq, str_eq_iff, Bool-cases,
}
use co_write_file_system.Manager.Entry.{FileEntry}
use co_write_file_system.Manager.Files.{
  FileTable, not_found, done, failed, assign, copy_entry, cut_last, file_hash_insert,
  file_hash_remove, find_file_index, move_entry, nm_find_file, nm_remove_file,
}
use co_write_file_system.Manager.Files.Walks.{name_at, get_elem?-name_at}
use co_write_file_system.Manager.Files.Index.{IsIndexed}
use co_write_file_system.Manager.Files.Relink.{file_hash_insert-IsIndexed}
use co_write_file_system.Manager.Files.Removal.{file_hash_remove-IsIndexed, file_hash_remove-files}
use co_write_file_system.Manager.Files.Valid.{
  copy_entry-IsIndexed, cut_last-IsIndexed, IsIndexed-agree, length-set, length-without_last,
  get_elem?-without_last,
}
use co_write_file_system.Manager.Files.Map.{
  IsValid, Locates, find_file_index-Locates, first_named, nm_find_file-first_named,
}
use co_write_file_system.Manager.Files.Adds.{
  file_hash_insert-files, find_file_index-none, find_file_index-some,
}
use co_write_file_system.Manager.Files.Shrinks.{
  Leaves, source, get_elem?-set, left-IsDistinct, left-gone, left-kept,
}

-- The table after the removal, all of whose entries stand in their chains again.
record Shrunk (t after : FileTable) (i : ℕ) : Type 0 where
  pub chains : ℕ → List ℕ
  pub indexed : IsIndexed after (λ k. true) chains
  pub left : Leaves t.files after.files i

-- The removed entry is the last one.
cut-Shrunk :
    (t : FileTable) (i : ℕ) (chains : ℕ → List ℕ)
    → i < length t.files
    → i ≡ length t.files - 1
    → IsIndexed t (assign (λ k. true) i false) chains
    → Shrunk t (cut_last t) i
cut-Shrunk t i chains p e v = record {
  chains = chains;
  indexed =
      IsIndexed-agree (cut_last t) _ (λ k. true) chains
        (λ k h. let short = length-without_last t.files in ground arith)
        (cut_last-IsIndexed t _ chains (omega arith) (ground arith) v);
  left = record {
    short = length-without_last t.files;
    moved = λ k h. get_elem?-without_last t.files k h ∙ ground arith;
  };
}

-- Another one is: the last entry is copied to its place, and stands in its chain from there.
module _ (t : FileTable) (last i : ℕ) (chains : ℕ → List ℕ) (long : length t.files ≡ suc last)
    (before : i < last)
    (v : IsIndexed t (assign (assign (λ k. true) i false) last false) chains) where
  abbrev copied : FileTable
  copied = copy_entry t last i

  abbrev moved : FileTable
  moved = file_hash_insert copied i

  copied-files :
      (f : FileEntry) × (get_elem? t.files last ≡ some f) × (copied.files ≡ set t.files i f)
  copied-files =
      let (f, at, _) = get_elem?-name_at t.files last (omega arith) in
      (f, at, rw (at, copy_entry) refl)

  length-copied : length copied.files ≡ suc last
  length-copied =
      let (f, _, same) = copied-files in ap (λ fs. length fs) same ∙ length-set t.files i f ∙ long

  get_elem?-moved : (k : ℕ) → get_elem? moved.files k ≡ get_elem? t.files (source last i k)
  get_elem?-moved k =
      let (f, at, same) = copied-files in
      ap (λ fs. get_elem? fs k) (file_hash_insert-files copied i ∙ same)
      ∙ get_elem?-set t.files i f k (omega arith)
      ∙ elim (Bool-cases (k == i)) [ inl e ↦ rw e (sym at) | inr e ↦ rw e refl ]

  length-moved : length moved.files ≡ suc last
  length-moved = ap (λ fs. length fs) (file_hash_insert-files copied i) ∙ length-copied

  moved-IsIndexed :
      (c : ℕ → List ℕ) × IsIndexed moved
        (assign (assign (assign (λ k. true) i false) last false) i true)
        c
  moved-IsIndexed = (
    _,
    file_hash_insert-IsIndexed copied _ chains
        (copy_entry-IsIndexed t last i _ chains (omega arith) (omega arith) (ground arith) v) i
        (omega (arith, length-copied)) (ground arith),
  )

  move-Shrunk : Shrunk t (cut_last moved) i
  move-Shrunk =
      let (c, w) = moved-IsIndexed in
      let short = length-without_last moved.files in
      record {
        chains = c;
        indexed =
            IsIndexed-agree (cut_last moved) _ (λ k. true) c
              (λ k h. ground (arith, short, length-moved))
              (cut_last-IsIndexed moved _ c (omega (arith, length-moved))
                (ground (arith, length-moved)) w);
        left = record {
          short = omega (arith, short, length-moved);
          moved = λ k h.
              get_elem?-without_last moved.files k (omega (arith, length-moved))
              ∙ get_elem?-moved k
              ∙ ground arith;
        };
      }

abbrev removed : FileTable → ℕ → FileTable
removed t i = cut_last (move_entry (file_hash_remove t i) (length t.files - 1) i)

Shrunk-files :
    (t u after : FileTable) (i : ℕ) → u.files ≡ t.files → Shrunk u after i → Shrunk t after i
Shrunk-files t u after i e s = record {
  chains = s.chains;
  indexed = s.indexed;
  left = subst (λ fs. Leaves fs after.files i) e s.left;
}

removed-Shrunk : (t : FileTable) (i : ℕ) → IsValid t → i < length t.files → Shrunk t (removed t i) i
removed-Shrunk t i v p =
    let last = length t.files - 1 in
    let t1 = file_hash_remove t i in
    let same1 = file_hash_remove-files t _ v.chains v.indexed i p refl in
    let w1 = file_hash_remove-IsIndexed t _ v.chains v.indexed i p refl in
    let long1 : length t1.files ≡ length t.files = ap (λ fs. length fs) same1 in
    elim (Bool-cases (i == last)) [
      | inl e ↦
          Shrunk-files t t1 _ i same1
            (rw e (cut-Shrunk t1 i _ (omega (arith, long1)) (ground (arith, long1)) w1))
      | inr e ↦
          let in1 : last < length t1.files = ground (arith, long1) in
          let on : assign (λ k. true) i false last ≡ true = rw e refl in
          let t2 = file_hash_remove t1 last in
          let same2 = file_hash_remove-files t1 _ _ w1 last in1 on in
          let long2 : length t2.files ≡ length t1.files = ap (λ fs. length fs) same2 in
          Shrunk-files t t2 _ i (same2 ∙ same1) (
            rw e (
              move-Shrunk t2 last i _ (omega (arith, long1, long2)) (ground arith)
                (file_hash_remove-IsIndexed t1 _ _ w1 last in1 on)))
    ]

module _ (t : FileTable) (name : Bytes) (v : IsValid t) where
  -- A name that no file has is refused with ENOENT, and the table stays.
  pub nm_remove_file-absent :
      nm_find_file t name ≡ none → nm_remove_file t name ≡ (t, failed not_found)
  unfolding nm_remove_file
  nm_remove_file-absent h = rw (find_file_index-none t name v h) refl

  module _ (f : FileEntry) (found : nm_find_file t name ≡ some f) where
    abbrev index : ℕ
    index = (find_file_index-some t name f found).0

    at : find_file_index t name ≡ some index
    at = (find_file_index-some t name f found).1

    here : (index < length t.files) × (name_at t.files index ≡ name)
    here = subst (Locates t.files name) at (find_file_index-Locates t name v)

    step : nm_remove_file t name ≡ (removed t index, done)
    unfolding nm_remove_file
    step = rw at refl

    shrunk : Shrunk t (removed t index) index
    shrunk = removed-Shrunk t index v here.0

    after-IsValid : IsValid (nm_remove_file t name).0
    after-IsValid = rw step (record {
      chains = shrunk.chains;
      indexed = shrunk.indexed;
      distinct = left-IsDistinct t.files _ index here.0 shrunk.left v.distinct;
    })

    found_after :
        (q : Bytes)
        → nm_find_file (nm_remove_file t name).0 q
          ≡ (if str_eq name q then none else nm_find_file t q)
    found_after q =
        nm_find_file-first_named _ q after-IsValid
        ∙ ap (λ x. first_named x.0.files q) step
        ∙ elim (Bool-cases (str_eq name q)) [
          | inl e ↦ rw e (
              left-gone t.files _ index here.0 shrunk.left v.distinct q
                (here.1 ∙ (str_eq_iff name q).0 e))
          | inr e ↦ rw e (
              left-kept t.files _ index here.0 shrunk.left v.distinct q (find_file_index t q)
                (λ z. cc (sym e ∙ (str_eq_iff name q).1 (sym here.1 ∙ z)))
                (find_file_index-Locates t q v)
              ∙ sym (nm_find_file-first_named t q v))
        ]

    -- A file is removed: the table stays valid, though the last entry moves to the place of the
    -- removed one, the name is not found any more, and each other name finds what it found before.
    pub nm_remove_file-removes :
        ((nm_remove_file t name).1 ≡ done)
        × IsValid (nm_remove_file t name).0
        × ((q : Bytes)
            → nm_find_file (nm_remove_file t name).0 q
              ≡ (if str_eq name q then none else nm_find_file t q))
    nm_remove_file-removes = (ap (λ x. x.1) step, after-IsValid, found_after)

-- ===== src/Manager/Files/Valid.antt =====
-- nm/nm_state.c: the steps of nm_add_file and nm_remove_file on the array, with the hash index.
use co_write_file_system.Prelude.{
  ℕ, zero, suc, ◌-◌, ◌<◌, ◌≡◌, ◌≢◌, refl, inl, inr, sym, ap, ◌∙◌, Bool, true, false, ◌&&◌, List, [],
  ◌∷◌, ◌++◌, none, ltb, ◌==◌, if◌then◌else◌, arith, length, length-append, get_elem?, set,
  Bool-cases,
}
use co_write_file_system.Manager.Entry.{FileEntry}
use co_write_file_system.Manager.Files.{
  FileTable, assign, append_file, copy_entry, cut_last, without_last,
}
use co_write_file_system.Manager.Files.Chains.{IsChain-assign}
use co_write_file_system.Manager.Files.Walks.{name_at, get_elem?-name_at}
use co_write_file_system.Manager.Files.Index.{IsIndexed, stands, stands_unlisted}

-- The names of the array after each of its changes.
pub name_at-append :
    (files : List FileEntry) (f : FileEntry) (k : ℕ)
    → name_at (files ++ f ∷ []) k ≡ (if k == length files then f.name else name_at files k)
unfolding name_at
name_at-append [] f zero = refl
name_at-append [] f (suc k) = ground arith
name_at-append (g ∷ files) f zero = ground arith
name_at-append (g ∷ files) f (suc k) = ground (arith, name_at-append files f k)

pub length-set :
    (files : List FileEntry) (i : ℕ) (f : FileEntry) → length (set files i f) ≡ length files
length-set [] i f = refl
length-set (g ∷ files) zero f = refl
length-set (g ∷ files) (suc i) f = ap suc (length-set files i f)

pub name_at-set :
    (files : List FileEntry) (i : ℕ) (f : FileEntry) (k : ℕ)
    → i < length files
    → name_at (set files i f) k ≡ (if i == k then f.name else name_at files k)
unfolding name_at
name_at-set [] i f k h = absurd (omega arith)
name_at-set (g ∷ files) zero f zero h = refl
name_at-set (g ∷ files) zero f (suc k) h = ground arith
name_at-set (g ∷ files) (suc i) f zero h = ground arith
name_at-set (g ∷ files) (suc i) f (suc k) h = ground (arith, name_at-set files i f k)

pub length-without_last : (files : List FileEntry) → length (without_last files) ≡ length files - 1
length-without_last [] = refl
length-without_last (f ∷ []) = refl
length-without_last (f ∷ g ∷ files) = omega (arith, length-without_last (g ∷ files))

pub get_elem?-without_last :
    (files : List FileEntry) (k : ℕ)
    → k < length files - 1
    → get_elem? (without_last files) k ≡ get_elem? files k
get_elem?-without_last [] k h = refl
get_elem?-without_last (f ∷ []) k h = absurd (omega arith)
get_elem?-without_last (f ∷ g ∷ files) zero h = refl
get_elem?-without_last (f ∷ g ∷ files) (suc k) h =
    get_elem?-without_last (g ∷ files) k (omega arith)

pub name_at-without_last :
    (files : List FileEntry) (k : ℕ)
    → k < length files - 1
    → name_at (without_last files) k ≡ name_at files k
unfolding name_at
name_at-without_last [] k h = refl
name_at-without_last (f ∷ []) k h = absurd (omega arith)
name_at-without_last (f ∷ g ∷ files) zero h = refl
name_at-without_last (f ∷ g ∷ files) (suc k) h = name_at-without_last (g ∷ files) k (omega arith)

-- The number depends on the names and marks below the length.
pub stands-agree :
    (files after : List FileEntry) (listed marks : ℕ → Bool) (b i : ℕ)
    → ((i < length after) × (marks i ≡ true)
        → (i < length files) × (listed i ≡ true) × (name_at after i ≡ name_at files i))
    → ((i < length files) × (listed i ≡ true) → (i < length after) × (marks i ≡ true))
    → stands after marks b i ≡ stands files listed b i
stands-agree files after listed marks b i back on =
    elim (Bool-cases (ltb i (length after) && marks i)) [
      | inl e ↦
          let here : (i < length after) × (marks i ≡ true) = ground arith in
          let (h, l, same) = back here in rw (same, l, here.1) (ground arith)
      | inr e ↦ elim (Bool-cases (ltb i (length files) && listed i)) [
        | inl q ↦
            let there : (i < length files) × (listed i ≡ true) = ground arith in
            let here = on there in absurd (ground arith)
        | inr q ↦ ground arith
      ]
    ]

pub IsIndexed-agree :
    (t : FileTable) (listed marks : ℕ → Bool) (chains : ℕ → List ℕ)
    → ((k : ℕ) → k < length t.files → marks k ≡ listed k)
    → IsIndexed t listed chains
    → IsIndexed t marks chains
IsIndexed-agree t listed marks chains same v = record {
  linked = v.linked;
  counted = λ b k.
      v.counted b k
      ∙ sym (
          stands-agree t.files t.files listed marks b k (λ h. (h.0, sym (same k h.0) ∙ h.1, refl))
            (λ h. (h.0, same k h.0 ∙ h.1)));
}

pub append_file-IsIndexed :
    (t : FileTable) (f : FileEntry) (chains : ℕ → List ℕ)
    → IsIndexed t (λ k. true) chains
    → IsIndexed (append_file t f) (assign (λ k. true) (length t.files) false) chains
append_file-IsIndexed t f chains v = record {
  linked = λ b.
      IsChain-assign t.next (t.buckets b) (chains b) (length t.files) none
        (v.counted b (length t.files) ∙ ground arith) (v.linked b);
  counted = λ b k.
      v.counted b k
      ∙ sym (
          stands-agree t.files (t.files ++ f ∷ []) (λ k. true)
            (assign (λ k. true) (length t.files) false) b k (λ h. appended k h.0 h.1)
            (λ h. still k h.0));
}
  where
    long : length (t.files ++ f ∷ []) ≡ suc (length t.files)
    long = omega (arith, length-append t.files (f ∷ []))

    appended :
        (k : ℕ)
        → k < length (t.files ++ f ∷ [])
        → assign (λ k. true) (length t.files) false k ≡ true
        → (k < length t.files) × (true ≡ true) × (name_at (t.files ++ f ∷ []) k ≡ name_at t.files k)
    appended k h m = elim (Bool-cases (k == length t.files)) [
      | inl e ↦ absurd (ground arith)
      | inr e ↦
          let other : k ≢ length t.files = ground arith in
          (omega (arith, long), refl, name_at-append t.files f k ∙ rw e refl)
    ]

    still :
        (k : ℕ)
        → k < length t.files
        → (k < length (t.files ++ f ∷ [])) × (assign (λ k. true) (length t.files) false k ≡ true)
    still k h = (omega (arith, long), ground arith)

pub copy_entry-IsIndexed :
    (t : FileTable) (from to : ℕ) (listed : ℕ → Bool) (chains : ℕ → List ℕ)
    → from < length t.files
    → to < length t.files
    → listed to ≡ false
    → IsIndexed t listed chains
    → IsIndexed (copy_entry t from to) listed chains
copy_entry-IsIndexed t from to listed chains h k off v =
    let (f, at, named) = get_elem?-name_at t.files from h in
    rw (at, copy_entry)
      (record {
        linked = λ b.
            IsChain-assign t.next (t.buckets b) (chains b) to (t.next from)
              (v.counted b to ∙ stands_unlisted t.files listed b to off) (v.linked b);
        counted = λ b i.
            v.counted b i
            ∙ sym (
                stands-agree t.files (set t.files to f) listed listed b i
                  (λ (p, q). (
                    omega (arith, length-set t.files to f),
                    q,
                    name_at-set t.files to f i k ∙ away i f q,
                  ))
                  (λ (p, q). (omega (arith, length-set t.files to f), q)));
      })
  where
    away :
        (i : ℕ) (f : FileEntry)
        → listed i ≡ true
        → (if to == i then f.name else name_at t.files i) ≡ name_at t.files i
    away i f q = elim (Bool-cases (to == i)) [
      | inl e ↦
          let same : to ≡ i = ground arith in
          let off_here : listed i ≡ false = ap listed (sym same) ∙ off in absurd (cc (q, off_here))
      | inr e ↦ rw e refl
    ]

pub cut_last-IsIndexed :
    (t : FileTable) (listed : ℕ → Bool) (chains : ℕ → List ℕ)
    → 0 < length t.files
    → listed (length t.files - 1) ≡ false
    → IsIndexed t listed chains
    → IsIndexed (cut_last t) listed chains
cut_last-IsIndexed t listed chains h off v = record {
  linked = v.linked;
  counted = λ b k.
      v.counted b k
      ∙ sym (
          stands-agree t.files (without_last t.files) listed listed b k
            (λ (p, q).
              (omega (arith, short), q, name_at-without_last t.files k (omega (arith, short))))
            (λ (p, q). (shorter k p q, q)));
}
  where
    short : length (without_last t.files) ≡ length t.files - 1
    short = length-without_last t.files

    shorter : (k : ℕ) → k < length t.files → listed k ≡ true → k < length (without_last t.files)
    shorter k p q = elim (Bool-cases (k == length t.files - 1)) [
      | inl e ↦
          let same : k ≡ length t.files - 1 = ground arith in
          let off_here : listed k ≡ false = ap listed same ∙ off in absurd (cc (q, off_here))
      | inr e ↦ let other : k ≢ length t.files - 1 = ground arith in omega (arith, short)
    ]

-- ===== src/Manager/Files/Map.antt =====
-- nm/nm_state.c: what the file table is, by the names of its files: find_file_index and nm_find_file
-- against a search from one end of the array to the other.
use co_write_file_system.Prelude.{
  ℕ, zero, suc, ◌<◌, ◌≡◌, ◌≢◌, refl, inl, inr, sym, ap, ◌∙◌, true, List, [], ◌∷◌, Option, none,
  some, if◌then◌else◌, arith, Bytes, length, get_elem?, str_eq, str_eq_iff, Bool-cases,
}
use co_write_file_system.Manager.Entry.{FileEntry}
use co_write_file_system.Manager.Files.{
  FileTable, bucket_of, empty, file_at, find_file_index, nm_find_file,
}
use co_write_file_system.Manager.Files.Chains.{count}
use co_write_file_system.Manager.Files.Walks.{name_at, FindsIn, find_from-FindsIn}
use co_write_file_system.Manager.Files.Index.{IsIndexed}
use co_write_file_system.Manager.Files.Relink.{length-chain, chain_inside}

-- No two files have one name.
abbrev pub IsDistinct : List FileEntry → Type 0
IsDistinct files =
    (i j : ℕ) → i < length files → j < length files → name_at files i ≡ name_at files j → i ≡ j

pub record IsValid (t : FileTable) : Type 0 where
  pub chains : ℕ → List ℕ
  pub indexed : IsIndexed t (λ k. true) chains
  pub distinct : IsDistinct t.files

-- The search that does not use the hash index.
unfoldable pub first_named : List FileEntry → Bytes → Option FileEntry
first_named [] q = none
first_named (f ∷ files) q = if str_eq f.name q then some f else first_named files q

-- What find_file_index returns, by the names.
abbrev pub Locates : List FileEntry → Bytes → Option ℕ → Type 0
Locates files q none = (k : ℕ) → k < length files → name_at files k ≢ q
Locates files q (some i) = (i < length files) × (name_at files i ≡ q)

FindsIn-Locates :
    (t : FileTable) (v : IsValid t) (q : Bytes) (r : Option ℕ)
    → FindsIn t.files q (v.chains (bucket_of q)) r
    → Locates t.files q r
FindsIn-Locates t v q none h = λ k p e. h k (there k p e) e
  where
    there :
        (k : ℕ) → k < length t.files → name_at t.files k ≡ q → 0 < count k (v.chains (bucket_of q))
    there k p e =
        let home : bucket_of (name_at t.files k) ≡ bucket_of q = ap (λ n. bucket_of n) e in
        rw (v.indexed.counted (bucket_of q) k) (ground arith)
FindsIn-Locates t v q (some i) (h, e) = (chain_inside t _ v.chains v.indexed (bucket_of q) i h, e)

pub find_file_index-Locates :
    (t : FileTable) (q : Bytes) → IsValid t → Locates t.files q (find_file_index t q)
unfolding find_file_index
find_file_index-Locates t q v = FindsIn-Locates t v q _ (
    find_from-FindsIn (suc (length t.files)) t.files t.next q (t.buckets (bucket_of q))
      (v.chains (bucket_of q)) (omega (arith, length-chain t _ v.chains v.indexed (bucket_of q)))
      (chain_inside t _ v.chains v.indexed (bucket_of q)) (v.indexed.linked (bucket_of q)))

pub Locates-unique :
    (files : List FileEntry) (q : Bytes) (r : Option ℕ) (i : ℕ)
    → IsDistinct files
    → Locates files q r
    → i < length files
    → name_at files i ≡ q
    → r ≡ some i
Locates-unique files q none i d h p e = absurd (h i p e)
Locates-unique files q (some j) i d (p', e') p e = ap some (d j i p' p (e' ∙ sym e))

pub first_named-none :
    (files : List FileEntry) (q : Bytes)
    → ((k : ℕ) → k < length files → name_at files k ≢ q)
    → first_named files q ≡ none
unfolding first_named name_at
first_named-none [] q h = refl
first_named-none (f ∷ files) q h = elim (Bool-cases (str_eq f.name q)) [
  | inl e ↦ absurd (h zero (omega arith) ((str_eq_iff f.name q).0 e))
  | inr e ↦ rw e (first_named-none files q (λ k p. h (suc k) (omega arith)))
]

IsDistinct-tail :
    (f : FileEntry) (files : List FileEntry) → IsDistinct (f ∷ files) → IsDistinct files
unfolding name_at
IsDistinct-tail f files d =
    λ i j p p' e. let same = d (suc i) (suc j) (omega arith) (omega arith) e in omega arith

pub first_named-at :
    (files : List FileEntry) (q : Bytes) (i : ℕ)
    → IsDistinct files
    → i < length files
    → name_at files i ≡ q
    → first_named files q ≡ get_elem? files i
unfolding first_named name_at
first_named-at [] q i d p e = absurd (omega arith)
first_named-at (f ∷ files) q zero d p e = rw ((str_eq_iff f.name q).1 e) refl
first_named-at (f ∷ files) q (suc i) d p e = elim (Bool-cases (str_eq f.name q)) [
  | inl h ↦
      let same = d zero (suc i) (omega arith) p ((str_eq_iff f.name q).0 h ∙ sym e) in
      absurd (omega arith)
  | inr h ↦ rw h (first_named-at files q i (IsDistinct-tail f files d) (omega arith) e)
]

file_at-first_named :
    (files : List FileEntry) (q : Bytes) (r : Option ℕ)
    → IsDistinct files
    → Locates files q r
    → file_at files r ≡ first_named files q
file_at-first_named files q none d h = sym (first_named-none files q h)
file_at-first_named files q (some i) d (p, e) = sym (first_named-at files q i d p e)

-- In a valid table the search along the hash chain finds what a search of the whole array for the
-- name finds, and it is nothing exactly when that is nothing: the fuel of the walk is enough.
pub nm_find_file-first_named :
    (t : FileTable) (q : Bytes) → IsValid t → nm_find_file t q ≡ first_named t.files q
unfolding nm_find_file
nm_find_file-first_named t q v =
    file_at-first_named t.files q _ v.distinct (find_file_index-Locates t q v)

pub empty-IsValid : IsValid empty
empty-IsValid = record {
  chains = λ b. [];
  indexed = record { linked = λ b. refl; counted = λ b i. unfold count in ground arith };
  distinct = λ i j p. absurd (omega arith);
}

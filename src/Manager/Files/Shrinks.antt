-- ===== src/Manager/Files/Shrinks.antt =====
-- nm/nm_state.c: the array that nm_remove_file leaves: the last entry takes the place of the removed one.
use co_write_file_system.Prelude.{
  ℕ, zero, suc, ◌-◌, ◌<◌, ◌≡◌, ◌≢◌, refl, sym, ap, ◌∙◌, List, [], ◌∷◌, Option, none, some, ◌==◌,
  if◌then◌else◌, arith, Bytes, length, get_elem?, set,
}
use co_write_file_system.Manager.Entry.{FileEntry}
use co_write_file_system.Manager.Files.Walks.{name_at, get_elem?-name_at}
use co_write_file_system.Manager.Files.Map.{
  IsDistinct, Locates, first_named, first_named-at, first_named-none,
}

-- Where the entry at `k` stood before the removal of the entry at `i`.
abbrev pub source : ℕ → ℕ → ℕ → ℕ
source last i k = if k == i then last else k

-- What the removal of the entry at `i` leaves of the array.
pub record Leaves (files after : List FileEntry) (i : ℕ) : Type 0 where
  pub short : length after ≡ length files - 1
  pub moved :
      (k : ℕ)
      → k < length files - 1
      → get_elem? after k ≡ get_elem? files (source (length files - 1) i k)

pub get_elem?-set :
    (files : List FileEntry) (i : ℕ) (f : FileEntry) (k : ℕ)
    → i < length files
    → get_elem? (set files i f) k ≡ (if k == i then some f else get_elem? files k)
get_elem?-set [] i f k h = absurd (omega arith)
get_elem?-set (g ∷ files) zero f zero h = refl
get_elem?-set (g ∷ files) zero f (suc k) h = ground arith
get_elem?-set (g ∷ files) (suc i) f zero h = ground arith
get_elem?-set (g ∷ files) (suc i) f (suc k) h = ground (arith, get_elem?-set files i f k)

name_at-get_elem? :
    (files after : List FileEntry) (k j : ℕ)
    → k < length after
    → j < length files
    → get_elem? after k ≡ get_elem? files j
    → name_at after k ≡ name_at files j
name_at-get_elem? files after k j p q e =
    let (f, at, named) = get_elem?-name_at after k p in
    let (g, there, named') = get_elem?-name_at files j q in
    let same : some f ≡ some g = cc (at, e, there) in sym named ∙ cc same ∙ named'

module _ (files after : List FileEntry) (i : ℕ) (inside : i < length files)
    (left : Leaves files after i) (d : IsDistinct files) where
  source-inside : (k : ℕ) → k < length after → source (length files - 1) i k < length files
  source-inside k p = ground (arith, left.short)

  source_ne : (k : ℕ) → k < length after → source (length files - 1) i k ≢ i
  source_ne k p e = ground (arith, left.short)

  name_at-source :
      (k : ℕ) → k < length after → name_at after k ≡ name_at files (source (length files - 1) i k)
  name_at-source k p =
      name_at-get_elem? files after k _ p (source-inside k p)
        (left.moved k (omega (arith, left.short)))

  pub left-IsDistinct : IsDistinct after
  left-IsDistinct = λ k j p q e.
      let same =
        d (source (length files - 1) i k) (source (length files - 1) i j) (source-inside k p)
          (source-inside j q) (sym (name_at-source k p) ∙ e ∙ name_at-source j q) in
      ground (arith, left.short)

  -- The name of the entry that is removed is not found any more.
  pub left-gone : (q : Bytes) → name_at files i ≡ q → first_named after q ≡ none
  left-gone q e = first_named-none after q (λ k p z.
      source_ne k p (d _ i (source-inside k p) inside (sym (name_at-source k p) ∙ z ∙ sym e)))

  target : ℕ → ℕ
  target j = if j == length files - 1 then i else j

  target-source :
      (j : ℕ)
      → j < length files
      → j ≢ i
      → (target j < length after) × (source (length files - 1) i (target j) ≡ j)
  unfolding target
  target-source j p n = ground (arith, left.short)

  -- Every other name finds what it found.
  pub left-kept :
      (q : Bytes) (r : Option ℕ)
      → name_at files i ≢ q
      → Locates files q r
      → first_named after q ≡ first_named files q
  left-kept q none n l =
      first_named-none after q (λ k p z. l _ (source-inside k p) (sym (name_at-source k p) ∙ z))
      ∙ sym (first_named-none files q l)
  left-kept q (some j) n (l, e) =
      let other : j ≢ i = λ z. n (ap (name_at files) (sym z) ∙ e) in
      let (p, same) = target-source j l other in
      first_named-at after q (target j) left-IsDistinct p
        (name_at-source (target j) p ∙ ap (name_at files) same ∙ e)
      ∙ left.moved (target j) (omega (arith, left.short))
      ∙ ap (get_elem? files) same
      ∙ sym (first_named-at files q j d l e)

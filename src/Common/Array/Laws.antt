-- ===== src/Common/Array/Laws.antt =====
-- common/array.c: what the array operations do, and that an array never outgrows its capacity.
use co_write_file_system.Prelude.{
  ℕ, zero, suc, ◌+◌, ◌*◌, ◌≤◌, ◌<◌, ◌≡◌, ◌≢◌, refl, ap, Bool, true, List, [], ◌∷◌, ◌++◌, none, some,
  arith, ◌==◌, if◌then◌else◌, length, get_elem?, length-append,
}
use co_write_file_system.Common.Array.{
  Array, insert_at, remove_at, double_until, grown_cap, array_push, array_insert, array_get,
  array_remove,
}

double_until-le :
    (fuel wanted cap : ℕ) → wanted ≤ cap + fuel → 0 < cap → wanted ≤ double_until fuel wanted cap
unfolding double_until
double_until-le zero wanted cap h p = omega arith
double_until-le (suc fuel) wanted cap h p = ground (arith, double_until-le fuel wanted (cap * 2))

-- The doubling loop ends with room for the elements wanted.
grown_cap-le : (cap wanted : ℕ) → wanted ≤ grown_cap cap wanted
unfolding grown_cap
grown_cap-le cap wanted =
    double_until-le wanted wanted (if cap == 0 then 8 else cap * 2) (ground arith) (ground arith)

module _ {ℓ} {A : Type ℓ} where
  abbrev pub IsWithin : Array A → Type 0
  IsWithin arr = length arr.items ≤ arr.cap

  pub length-insert_at : (xs : List A) (i : ℕ) (v : A) → length (insert_at xs i v) ≡ length xs + 1
  length-insert_at xs zero v = omega arith
  length-insert_at [] (suc i) v = omega arith
  length-insert_at (x ∷ xs) (suc i) v = omega (arith, length-insert_at xs i v)

  length-remove_at : (xs : List A) (i : ℕ) → length (remove_at xs i) ≤ length xs
  length-remove_at [] zero = omega arith
  length-remove_at [] (suc i) = omega arith
  length-remove_at (x ∷ xs) zero = ground arith
  length-remove_at (x ∷ xs) (suc i) = ground (arith, length-remove_at xs i)

  pub remove_at-insert_at :
      (xs : List A) (i : ℕ) (v : A) → i ≤ length xs → remove_at (insert_at xs i v) i ≡ xs
  remove_at-insert_at xs zero v h = refl
  remove_at-insert_at [] (suc i) v h = absurd (omega arith)
  remove_at-insert_at (x ∷ xs) (suc i) v h = ap (◌∷◌ x) (remove_at-insert_at xs i v (omega arith))

  pub get_elem?-insert_at :
      (xs : List A) (i : ℕ) (v : A) → i ≤ length xs → get_elem? (insert_at xs i v) i ≡ some v
  get_elem?-insert_at xs zero v h = refl
  get_elem?-insert_at [] (suc i) v h = absurd (omega arith)
  get_elem?-insert_at (x ∷ xs) (suc i) v h = get_elem?-insert_at xs i v (omega arith)

module _ {ℓ} {A : Type ℓ} (alloc : ℕ → Bool) where
  -- A push that succeeds adds the element at the end, and keeps the length within the capacity.
  pub array_push-IsWithin :
      (arr : Array A) (v : A) {b : Array A}
      → array_push alloc arr v ≡ some b
      → (b.items ≡ arr.items ++ v ∷ []) × IsWithin b
  unfolding array_push
  array_push-IsWithin arr v h =
      ground (arith, grown_cap-le arr.cap (length arr.items + 1), length-append arr.items (v ∷ []))

  -- An insert that succeeds had an index in range, and puts the element there and moves the rest
  -- up; the length stays within the capacity.
  pub array_insert-IsWithin :
      (arr : Array A) (i : ℕ) (v : A) {b : Array A}
      → array_insert alloc arr i v ≡ some b
      → (i ≤ length arr.items) × (b.items ≡ insert_at arr.items i v) × IsWithin b
  unfolding array_insert
  array_insert-IsWithin arr i v h =
      ground (arith, grown_cap-le arr.cap (length arr.items + 1), length-insert_at arr.items i v)

  -- An insert at an index in range succeeds if memory is always granted.
  pub array_insert-ne-none :
      (arr : Array A) (i : ℕ) (v : A)
      → ((n : ℕ) → alloc n ≡ true)
      → i ≤ length arr.items
      → array_insert alloc arr i v ≢ none
  unfolding array_insert
  array_insert-ne-none arr i v ready h =
      ground (arith, ready (grown_cap arr.cap (length arr.items + 1)))

  -- After an insert that succeeds, the element can be read at its index, and removing it gives the
  -- elements back.
  pub array_remove-array_insert :
      (arr : Array A) (i : ℕ) (v : A) {b : Array A}
      → array_insert alloc arr i v ≡ some b
      → (array_get b i ≡ some v) × ((array_remove b i).items ≡ arr.items)
  unfolding array_get array_remove
  array_remove-array_insert arr i v {b} h =
      let (inside, items, _) = array_insert-IsWithin arr i v h in
      ground (
        arith,
        length-insert_at arr.items i v,
        get_elem?-insert_at arr.items i v inside,
        remove_at-insert_at arr.items i v inside,
      )

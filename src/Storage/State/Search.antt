-- ===== src/Storage/State/Search.antt =====
-- ss/ss_state.c, the binary searches over the sorted files.
use Prim.Native.Nat.{Ordering}
use co_write_file_system.Prelude.{
  ℕ, zero, suc, ◌+◌, ◌≤◌, ◌<◌, ◌≡◌, ◌≢◌, ◌⊎◌, inl, inr, refl, false, List, [], ◌∷◌, some, arith,
  ltb, Bytes, length, get_elem?, strcmp, ◌≺◌, ≺_trans, ≺_irrefl, strcmp-eq, strcmp-gt, Bool-cases,
}
use co_write_file_system.Storage.State.{
  SsFile, Lookup, found, absent, mid, find_loop, ss_state_find, insert_loop,
}

-- The name at an index; only read at an index in range.
abbrev pub key : List SsFile → ℕ → Bytes
key [] i = []
key (f ∷ files) zero = f.name
key (f ∷ files) (suc i) = key files i

abbrev pub IsSorted : List SsFile → Type 0
IsSorted files = (i j : ℕ) → i < j → j < length files → key files i ≺ key files j

-- The names before the index stand before the name, those from it on behind it.
abbrev pub Splits : List SsFile → Bytes → ℕ → Type 0
Splits files name at =
    (at ≤ length files)
    × ((i : ℕ) → i < at → key files i ≺ name)
    × ((i : ℕ) → at ≤ i → i < length files → name ≺ key files i)

abbrev pub Locates : List SsFile → Bytes → Lookup → Type 0
Locates files name (found i) = (i < length files) × (key files i ≡ name)
Locates files name (absent at) = Splits files name at

pub get_elem?-key :
    (files : List SsFile) (i : ℕ)
    → i < length files
    → (f : SsFile) × (get_elem? files i ≡ some f) × (f.name ≡ key files i)
get_elem?-key [] i h = absurd (omega arith)
get_elem?-key (f ∷ files) zero h = (f, refl, refl)
get_elem?-key (f ∷ files) (suc i) h = get_elem?-key files i (omega arith)

lt_or_eq : (i j : ℕ) → i ≤ j → (i < j) ⊎ (i ≡ j)
lt_or_eq i j h = ground arith

pub lt_or_eq_or : (i j : ℕ) → (i < j) ⊎ ((i ≡ j) ⊎ (j < i))
lt_or_eq_or i j = ground arith

-- The three outcomes of a comparison, with the equation.
order_cases : (o : Ordering) → (o ≡ Ordering.lt) ⊎ ((o ≡ Ordering.eq) ⊎ (o ≡ Ordering.gt))
order_cases Ordering.lt = inl refl
order_cases Ordering.eq = inr (inl refl)
order_cases Ordering.gt = inr (inr refl)

module _ (fuel lo hi : ℕ) (name : Bytes) (files : List SsFile) where
  find_loop_end : ltb lo hi ≡ false → find_loop (suc fuel) name files lo hi ≡ absent lo
  unfolding find_loop
  find_loop_end e = rw (e, find_loop)

  insert_loop_end : ltb lo hi ≡ false → insert_loop (suc fuel) name files lo hi ≡ lo
  unfolding insert_loop
  insert_loop_end e = rw (e, insert_loop)

  -- What the loops do by the comparison with the name in the middle.
  abbrev after : Ordering → Lookup
  after Ordering.lt = find_loop fuel name files (mid lo hi + 1) hi
  after Ordering.eq = found (mid lo hi)
  after Ordering.gt = find_loop fuel name files lo (mid lo hi)

  abbrev insert_after : Ordering → ℕ
  insert_after Ordering.lt = insert_loop fuel name files (mid lo hi + 1) hi
  insert_after Ordering.eq = insert_loop fuel name files lo (mid lo hi)
  insert_after Ordering.gt = insert_loop fuel name files lo (mid lo hi)

  module _ (o : Ordering) (open_range : lo < hi) (inside : hi ≤ length files)
      (e : strcmp (key files (mid lo hi)) name ≡ o) where
    find_loop_step : find_loop (suc fuel) name files lo hi ≡ after o
    unfolding find_loop
    find_loop_step =
        let (f, g, n) = get_elem?-key files (mid lo hi) (omega arith) in ground (arith, n, g, e)

    insert_loop_step : insert_loop (suc fuel) name files lo hi ≡ insert_after o
    unfolding insert_loop
    insert_loop_step =
        let (f, g, n) = get_elem?-key files (mid lo hi) (omega arith) in ground (arith, n, g, e)

-- What is known when the loop looks at `[lo, hi)`.
record Inv (files : List SsFile) (name : Bytes) (lo hi : ℕ) : Type 0 where
  ordered : lo ≤ hi
  inside : hi ≤ length files
  below : (i : ℕ) → i < lo → key files i ≺ name
  above : (i : ℕ) → hi ≤ i → i < length files → name ≺ key files i

module _ (files : List SsFile) (name : Bytes) (sorted : IsSorted files) where
  Inv-upper :
      (lo hi : ℕ)
      → Inv files name lo hi
      → lo < hi
      → key files (mid lo hi) ≺ name
      → Inv files name (mid lo hi + 1) hi
  Inv-upper lo hi v h before = record {
    ordered = omega arith;
    inside = v.inside;
    below = below;
    above = v.above;
  }
    where
      below : (i : ℕ) → i < mid lo hi + 1 → key files i ≺ name
      below i p = elim (lt_or_eq i (mid lo hi) (omega arith)) [
        | inl q ↦ ≺_trans _ _ _ (sorted i (mid lo hi) q (omega (arith, v.inside))) before
        | inr q ↦ rw q before
      ]

  Inv-lower :
      (lo hi : ℕ)
      → Inv files name lo hi
      → lo < hi
      → name ≺ key files (mid lo hi)
      → Inv files name lo (mid lo hi)
  Inv-lower lo hi v h behind = record {
    ordered = omega arith;
    inside = omega (arith, v.inside);
    below = v.below;
    above = above;
  }
    where
      above : (i : ℕ) → mid lo hi ≤ i → i < length files → name ≺ key files i
      above i p b = elim (lt_or_eq (mid lo hi) i (omega arith)) [
        | inl q ↦ ≺_trans _ _ _ behind (sorted (mid lo hi) i q b)
        | inr q ↦ rw (← q) behind
      ]

  Inv→Splits : (lo hi : ℕ) → Inv files name lo hi → ltb lo hi ≡ false → Splits files name lo
  Inv→Splits lo hi v e =
      let shut : hi ≤ lo = ground arith in
      (omega (arith, v.ordered, v.inside), v.below, λ i p. v.above i (omega arith))

  find_loop-Locates :
      (fuel lo hi : ℕ)
      → hi < lo + fuel
      → Inv files name lo hi
      → Locates files name (find_loop fuel name files lo hi)
  find_loop-Locates zero lo hi enough v = absurd (omega (arith, v.ordered))
  find_loop-Locates (suc fuel) lo hi enough v = elim (Bool-cases (ltb lo hi)) [
    | inr e ↦ rw (find_loop_end fuel lo hi name files e) (Inv→Splits lo hi v e)
    | inl e ↦
        let wide : lo < hi = ground arith in
        elim (order_cases (strcmp (key files (mid lo hi)) name)) [
          | inl q ↦
              rw (find_loop_step fuel lo hi name files Ordering.lt wide v.inside q)
                (find_loop-Locates fuel (mid lo hi + 1) hi (omega arith) (Inv-upper lo hi v wide q))
          | inr (inl q) ↦
              rw (find_loop_step fuel lo hi name files Ordering.eq wide v.inside q)
                (omega (arith, v.inside), strcmp-eq _ _ q)
          | inr (inr q) ↦ rw (find_loop_step fuel lo hi name files Ordering.gt wide v.inside q) (
              find_loop-Locates fuel lo (mid lo hi) (omega arith)
                (Inv-lower lo hi v wide (strcmp-gt _ _ q)))
        ]
  ]

  whole : Inv files name 0 (length files)
  whole = record {
    ordered = omega arith;
    inside = omega arith;
    below = λ i h. absurd (omega arith);
    above = λ i h b. absurd (omega arith);
  }

  -- On sorted files the search finds the name, or the index at which it would stand.
  pub ss_state_find-Locates : Locates files name (ss_state_find files name)
  unfolding ss_state_find
  ss_state_find-Locates =
      find_loop-Locates (suc (length files)) 0 (length files) (omega arith) whole

  insert_loop-Splits :
      (fuel lo hi : ℕ)
      → hi < lo + fuel
      → Inv files name lo hi
      → ((i : ℕ) → i < length files → key files i ≢ name)
      → Splits files name (insert_loop fuel name files lo hi)
  insert_loop-Splits zero lo hi enough v new = absurd (omega (arith, v.ordered))
  insert_loop-Splits (suc fuel) lo hi enough v new = elim (Bool-cases (ltb lo hi)) [
    | inr e ↦ rw (insert_loop_end fuel lo hi name files e) (Inv→Splits lo hi v e)
    | inl e ↦
        let wide : lo < hi = ground arith in
        elim (order_cases (strcmp (key files (mid lo hi)) name)) [
          | inl q ↦ rw (insert_loop_step fuel lo hi name files Ordering.lt wide v.inside q) (
              insert_loop-Splits fuel (mid lo hi + 1) hi (omega arith) (Inv-upper lo hi v wide q)
                new)
          | inr (inl q) ↦ absurd (new (mid lo hi) (omega (arith, v.inside)) (strcmp-eq _ _ q))
          | inr (inr q) ↦ rw (insert_loop_step fuel lo hi name files Ordering.gt wide v.inside q) (
              insert_loop-Splits fuel lo (mid lo hi) (omega arith)
                (Inv-lower lo hi v wide (strcmp-gt _ _ q)) new)
        ]
  ]

  -- Where the name is not yet there, the insertion loop finds the index that splits the files at it.
  pub insert_index-Splits :
      ((i : ℕ) → i < length files → key files i ≢ name)
      → Splits files name (insert_loop (suc (length files)) name files 0 (length files))
  insert_index-Splits new =
      insert_loop-Splits (suc (length files)) 0 (length files) (omega arith) whole new

-- Only one index splits the files at a name.
pub Splits-unique :
    (files : List SsFile) (name : Bytes) (m n : ℕ)
    → Splits files name m
    → Splits files name n
    → m ≡ n
Splits-unique files name m n (mi, mb, ma) (ni, nb, na) = elim (lt_or_eq_or m n) [
  | inl h ↦ absurd (≺_irrefl _ (≺_trans _ _ _ (nb m h) (ma m (omega arith) (omega arith))))
  | inr (inl h) ↦ h
  | inr (inr h) ↦ absurd (≺_irrefl _ (≺_trans _ _ _ (mb n h) (na n (omega arith) (omega arith))))
]

-- ===== src/Manager/Files/Chains.antt =====
-- nm/nm_state.c: the chains of the hash index as lists of indices, and what the walks along them do.
use co_write_file_system.Prelude.{
  ℕ, zero, suc, ◌+◌, ◌-◌, ◌≤◌, ◌<◌, ◌≡◌, refl, inl, inr, sym, ap, ◌∙◌, true, false, List, [], ◌∷◌,
  Option, none, some, ltb, ◌==◌, if◌then◌else◌, arith, length, Bool-cases,
}
use co_write_file_system.Manager.Files.{assign, unlink_after}

unfoldable pub count : ℕ → List ℕ → ℕ
count i [] = 0
count i (j ∷ l) = (if j == i then 1 else 0) + count i l

unfoldable pub erase : ℕ → List ℕ → List ℕ
erase i [] = []
erase i (j ∷ l) = if j == i then l else j ∷ erase i l

-- From the link `o` the walk visits the indices `l`, and ends.
abbrev pub IsChain : (ℕ → Option ℕ) → Option ℕ → List ℕ → Type 0
IsChain next o [] = o ≡ none
IsChain next o (j ∷ l) = (o ≡ some j) × IsChain next (next j) l

pub count-erase :
    (i k : ℕ) (l : List ℕ)
    → 0 < count i l
    → count k (erase i l) ≡ count k l - (if i == k then 1 else 0)
unfolding count erase
count-erase i k [] h = absurd (omega arith)
count-erase i k (j ∷ l) h = ground (arith, count-erase i k l)

pub count-head : (j : ℕ) (l : List ℕ) → 0 < count j (j ∷ l)
unfolding count
count-head j l = ground arith

pub count-cons_le : (k j : ℕ) (l : List ℕ) → count k l ≤ count k (j ∷ l)
unfolding count
count-cons_le k j l = ground arith

-- Only the links of the indices in the chain matter.
pub IsChain-agree :
    (next after : ℕ → Option ℕ) (o : Option ℕ) (l : List ℕ)
    → ((k : ℕ) → 0 < count k l → after k ≡ next k)
    → IsChain next o l
    → IsChain after o l
IsChain-agree next after o [] h c = c
IsChain-agree next after o (j ∷ l) h (e, c) =
    let kept = h j (count-head j l) in
    (
      e,
      rw kept
          (IsChain-agree next after (next j) l (λ k p. h k (omega (arith, count-cons_le k j l))) c),
    )

pub IsChain-assign :
    (next : ℕ → Option ℕ) (o : Option ℕ) (l : List ℕ) (i : ℕ) (v : Option ℕ)
    → count i l ≡ 0
    → IsChain next o l
    → IsChain (assign next i v) o l
IsChain-assign next o l i v h c = IsChain-agree next (assign next i v) o l same c
  where
    same : (k : ℕ) → 0 < count k l → assign next i v k ≡ next k
    same k p = elim (Bool-cases (i == k)) [
      | inl e ↦
          let here : i ≡ k = ground arith in
          let gone : count k l ≡ 0 = ap (λ j. count j l) (sym here) ∙ h in absurd (omega arith)
      | inr e ↦ rw e refl
    ]

-- No index stands in the list twice.
abbrev pub IsSimple : List ℕ → Type 0
IsSimple l = (k : ℕ) → count k l ≤ 1

pub record Unlinks (next after : ℕ → Option ℕ) (at index : ℕ) (l : List ℕ) : Type 0 where
  pub chained : IsChain after (after at) (erase index l)
  pub kept : (k : ℕ) → count k (at ∷ l) ≡ 0 → after k ≡ next k

unlink_hit :
    (fuel : ℕ) (next : ℕ → Option ℕ) (at i : ℕ)
    → next at ≡ some i
    → unlink_after (suc fuel) next at i ≡ assign next at (next i)
unfolding unlink_after
unlink_hit fuel next at i e =
    let same : (i == i) ≡ true = ground arith in rw (e, unlink_after, same) refl

unlink_miss :
    (fuel : ℕ) (next : ℕ → Option ℕ) (at i index : ℕ)
    → next at ≡ some i
    → (i == index) ≡ false
    → unlink_after (suc fuel) next at index ≡ unlink_after fuel next i index
unfolding unlink_after
unlink_miss fuel next at i index e other = rw (e, unlink_after, other) refl

unlink_end :
    (fuel : ℕ) (next : ℕ → Option ℕ) (at index : ℕ)
    → next at ≡ none
    → unlink_after fuel next at index ≡ next
unfolding unlink_after
unlink_end zero next at index e = refl
unlink_end (suc fuel) next at index e = rw (e, unlink_after) refl

IsSimple-tail : (j : ℕ) (l : List ℕ) → IsSimple (j ∷ l) → IsSimple l
IsSimple-tail j l h k = omega (arith, h k, count-cons_le k j l)

pub simple-head : (j : ℕ) (l : List ℕ) → IsSimple (j ∷ l) → count j l ≡ 0
unfolding count
simple-head j l h = ground (arith, h j)

pub assign_self : (next : ℕ → Option ℕ) (i : ℕ) (v : Option ℕ) → assign next i v i ≡ v
assign_self next i v = ground arith

pub erase-head : (i : ℕ) (l : List ℕ) → erase i (i ∷ l) ≡ l
unfolding erase
erase-head i l = ground arith

pub erase_ne : (i j : ℕ) (l : List ℕ) → (j == i) ≡ false → erase i (j ∷ l) ≡ j ∷ erase i l
unfolding erase
erase_ne i j l e = rw e refl

pub assign_other :
    (next : ℕ → Option ℕ) (i k : ℕ) (v : Option ℕ) (l : List ℕ)
    → count k (i ∷ l) ≡ 0
    → assign next i v k ≡ next k
unfolding count
assign_other next i k v l h = ground arith

unlink_hit-Unlinks :
    (next : ℕ → Option ℕ) (at i : ℕ) (l : List ℕ)
    → IsSimple (at ∷ i ∷ l)
    → IsChain next (next i) l
    → Unlinks next (assign next at (next i)) at i (i ∷ l)
unlink_hit-Unlinks next at i l simple c =
    let absent : count at l ≡ 0 =
      omega (arith, simple-head at (i ∷ l) simple, count-cons_le at i l) in
    record {
      chained =
          rw (assign_self next at (next i), erase-head i l)
            (IsChain-assign next (next i) l at (next i) absent c);
      kept = λ k h. assign_other next at k (next i) (i ∷ l) h;
    }

unlink_miss-Unlinks :
    (next after : ℕ → Option ℕ) (at i index : ℕ) (l : List ℕ)
    → IsSimple (at ∷ i ∷ l)
    → next at ≡ some i
    → (i == index) ≡ false
    → Unlinks next after i index l
    → Unlinks next after at index (i ∷ l)
unlink_miss-Unlinks next after at i index l simple e q u =
    let same = u.kept at (simple-head at (i ∷ l) simple) in
    record {
      chained = rw (erase_ne index i l q) (same ∙ e, u.chained);
      kept = λ k h. u.kept k (omega (arith, count-cons_le k at (i ∷ l)));
    }

-- The walk takes the index out of the rest of the chain, and leaves the links outside it.
pub unlink_after-Unlinks :
    (fuel : ℕ) (next : ℕ → Option ℕ) (at index : ℕ) (l : List ℕ)
    → length l < fuel
    → IsSimple (at ∷ l)
    → IsChain next (next at) l
    → Unlinks next (unlink_after fuel next at index) at index l
unfolding erase
unlink_after-Unlinks fuel next at index [] enough simple e =
    rw (unlink_end fuel next at index e) (record { chained = e; kept = λ k h. refl })
unlink_after-Unlinks zero next at index (i ∷ l) enough simple c = absurd (omega arith)
unlink_after-Unlinks (suc fuel) next at index (i ∷ l) enough simple (e, c) =
    let rest =
      unlink_after-Unlinks fuel next i index l (omega arith) (IsSimple-tail at (i ∷ l) simple) c in
    elim (Bool-cases (i == index)) [
      | inl q ↦
          let same : i ≡ index = ground arith in
          rw (← same, unlink_hit fuel next at i e) (unlink_hit-Unlinks next at i l simple c)
      | inr q ↦
          rw (unlink_miss fuel next at i index e q)
            (unlink_miss-Unlinks next _ at i index l simple e q rest)
    ]

-- No walk is longer than the table.
total : ℕ → List ℕ → ℕ
total zero l = 0
total (suc n) l = count n l + total n l

total-nil : (n : ℕ) → total n [] ≡ 0
unfolding total count
total-nil zero = refl
total-nil (suc n) = omega (arith, total-nil n)

total-cons : (n j : ℕ) (l : List ℕ) → total n (j ∷ l) ≡ (if ltb j n then 1 else 0) + total n l
unfolding total count
total-cons zero j l = ground arith
total-cons (suc n) j l = ground (arith, total-cons n j l)

total-le : (n : ℕ) (l : List ℕ) → IsSimple l → total n l ≤ n
unfolding total
total-le zero l h = omega arith
total-le (suc n) l h = omega (arith, h n, total-le n l h)

total-length : (n : ℕ) (l : List ℕ) → ((k : ℕ) → 0 < count k l → k < n) → total n l ≡ length l
total-length n [] h = total-nil n
total-length n (j ∷ l) h =
    let small = h j (count-head j l) in
    let rest = total-length n l (λ k p. h k (omega (arith, count-cons_le k j l))) in
    ground (arith, total-cons n j l)

pub length-le : (n : ℕ) (l : List ℕ) → IsSimple l → ((k : ℕ) → 0 < count k l → k < n) → length l ≤ n
length-le n l simple inside = omega (arith, total-le n l simple, total-length n l inside)

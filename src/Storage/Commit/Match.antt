-- ===== src/Storage/Commit/Match.antt =====
-- ss/ss_main.c, count_context_matches and the search for the best candidate.
use co_write_file_system.Prelude.{
  ℕ, zero, suc, ◌+◌, ◌≤◌, ◌<◌, ◌≡◌, ◌≢◌, ◌⊎◌, inl, inr, refl, ap, sym, ◌∙◌, true, false, List, [],
  ◌∷◌, Option, none, some, arith, Bytes, All, get_elem?, ℤ, pos, ◌<ℤ◌, ◌-ℤ◌, str_eq, str_eq_iff,
  str_eq_refl, Bool-cases, Option-cases, ltb_ℤ,
}
use co_write_file_system.Storage.Session.{WriteSession}
use co_write_file_system.Storage.Commit.{
  Direction, backward, forward, neighbour, get_at, matches_from, count_context_matches, rating,
  score, keep_best, find_best,
}

-- A hit is one of the candidates, at its place in the list.
abbrev pub IsHit : Bytes → List Bytes → ℕ → ℕ → Type 0
IsHit baseline rest i b = (k : ℕ) × (b ≡ i + k) × (get_elem? rest k ≡ some baseline)

IsHit-next :
    (baseline c : Bytes) (rest : List Bytes) (i b : ℕ)
    → IsHit baseline rest (suc i) b
    → IsHit baseline (c ∷ rest) i b
IsHit-next baseline c rest i b (k, e, h) = (suc k, omega arith, h)

keep_best_cases :
    (i b : ℕ) (r sc : ℤ) (best : Option (ℕ × ℤ))
    → keep_best i r best ≡ some (b, sc)
    → (best ≡ some (b, sc)) ⊎ (b ≡ i)
keep_best_cases i b r sc none h = inr (ground arith)
keep_best_cases i b r sc (some (c, t)) h = elim (Bool-cases (ltb_ℤ t r)) [
  | inl e ↦ inr (ground arith)
  | inr e ↦ inl (ground arith)
]

keep_best-ne-none : (i : ℕ) (r : ℤ) (best : Option (ℕ × ℤ)) → keep_best i r best ≢ none
keep_best-ne-none i r none h = cc h
keep_best-ne-none i r (some (c, t)) h = ground arith

module _ (rate : ℕ → ℤ) (baseline : Bytes) where
  find_best_same :
      (c : Bytes) (rest : List Bytes) (i : ℕ) (best : Option (ℕ × ℤ))
      → str_eq c baseline ≡ true
      → find_best rate baseline (c ∷ rest) i best
        ≡ find_best rate baseline rest (suc i) (keep_best i (rate i) best)
  unfolding find_best
  find_best_same c rest i best e = rw (e, find_best)

  find_best_other :
      (c : Bytes) (rest : List Bytes) (i : ℕ) (best : Option (ℕ × ℤ))
      → str_eq c baseline ≡ false
      → find_best rate baseline (c ∷ rest) i best ≡ find_best rate baseline rest (suc i) best
  unfolding find_best
  find_best_other c rest i best e = rw (e, find_best)

  pub find_best-IsHit :
      (rest : List Bytes) (i : ℕ) (best : Option (ℕ × ℤ)) (b : ℕ) (sc : ℤ)
      → find_best rate baseline rest i best ≡ some (b, sc)
      → (best ≡ some (b, sc)) ⊎ IsHit baseline rest i b
  find_best-IsHit [] i best b sc h = inl (unfold find_best in h)
  find_best-IsHit (c ∷ rest) i best b sc h = elim (Bool-cases (str_eq c baseline)) [
    | inl e ↦
        elim (find_best-IsHit rest (suc i) (keep_best i (rate i) best) b sc
          (sym (find_best_same c rest i best e) ∙ h)) [
            | inl kept ↦ elim (keep_best_cases i b (rate i) sc best kept) [
              | inl old ↦ inl old
              | inr new ↦ inr (0, omega arith, ap some ((str_eq_iff c baseline).0 e))
            ]
            | inr hit ↦ inr (IsHit-next baseline c rest i b hit)
          ]
    | inr e ↦
        elim (find_best-IsHit rest (suc i) best b sc (sym (find_best_other c rest i best e) ∙ h)) [
          | inl old ↦ inl old
          | inr hit ↦ inr (IsHit-next baseline c rest i b hit)
        ]
  ]

  -- There is no hit only if no candidate is the baseline.
  pub find_best-none :
      (rest : List Bytes) (i : ℕ) (best : Option (ℕ × ℤ))
      → find_best rate baseline rest i best ≡ none
      → (best ≡ none) × All (λ c. c ≢ baseline) rest
  find_best-none [] i best h = (unfold find_best in h, tt)
  find_best-none (c ∷ rest) i best h = elim (Bool-cases (str_eq c baseline)) [
    | inl e ↦ absurd (
        keep_best-ne-none i (rate i) best
          (find_best-none rest (suc i) _ (sym (find_best_same c rest i best e) ∙ h)).0)
    | inr e ↦
        let (old, others) =
          find_best-none rest (suc i) best (sym (find_best_other c rest i best e) ∙ h) in
        (old, (λ q. ground (arith, str_eq_iff c baseline), others))
  ]

  pub find_best_miss :
      (rest : List Bytes) (i : ℕ)
      → All (λ c. c ≢ baseline) rest
      → find_best rate baseline rest i none ≡ none
  unfolding find_best
  find_best_miss [] i h = refl
  find_best_miss (c ∷ rest) i (n, h) =
      ground (arith, str_eq_iff c baseline, find_best_miss rest (suc i) h)

  -- A candidate that rates above all others is the one that is found.
  find_best_stays :
      (rest : List Bytes) (i k : ℕ)
      → k < i
      → ((j : ℕ) → j ≢ k → rate j <ℤ rate k)
      → find_best rate baseline rest i (some (k, rate k)) ≡ some (k, rate k)
  unfolding find_best
  find_best_stays [] i k h top = refl
  find_best_stays (c ∷ rest) i k h top =
      ground (arith, top i, find_best_stays rest (suc i) k (omega arith) top)

  -- What was found so far rates below the candidate.
  abbrev Beaten : Option (ℕ × ℤ) → ℕ → Type 0
  Beaten none k = Unit
  Beaten (some (b, sc)) k = sc <ℤ rate k

  keep_best_wins :
      (best : Option (ℕ × ℤ)) (k : ℕ) → Beaten best k → keep_best k (rate k) best ≡ some (k, rate k)
  keep_best_wins none k h = refl
  keep_best_wins (some (b, sc)) k h = ground arith

  keep_best-Beaten :
      (best : Option (ℕ × ℤ)) (i k : ℕ)
      → Beaten best k
      → rate i <ℤ rate k
      → Beaten (keep_best i (rate i) best) k
  keep_best-Beaten none i k h lt = lt
  keep_best-Beaten (some (b, sc)) i k h lt = elim (Bool-cases (ltb_ℤ sc (rate i))) [
    | inl e ↦ rw (e, keep_best) lt
    | inr e ↦ rw (e, keep_best) h
  ]

  pub find_best_top :
      (rest : List Bytes) (i m k : ℕ) (best : Option (ℕ × ℤ))
      → k ≡ i + m
      → get_elem? rest m ≡ some baseline
      → ((j : ℕ) → j ≢ k → rate j <ℤ rate k)
      → Beaten best k
      → find_best rate baseline rest i best ≡ some (k, rate k)
  find_best_top [] i m k best e h top beaten = cc h
  find_best_top (c ∷ rest) i zero k best e h top beaten =
      let same : i ≡ k = omega arith in
      let hit : c ≡ baseline = cc h in
      rw (find_best_same c rest i best ((str_eq_iff c baseline).1 hit), same)
        (rw (keep_best_wins best k beaten) (find_best_stays rest (suc k) k (omega arith) top))
  find_best_top (c ∷ rest) i (suc m) k best e h top beaten = elim (Bool-cases (str_eq c baseline)) [
    | inl q ↦ rw (find_best_same c rest i best q) (
        find_best_top rest (suc i) m k _ (omega arith) h top
          (keep_best-Beaten best i k beaten (top i (omega arith))))
    | inr q ↦
        rw (find_best_other c rest i best q)
          (find_best_top rest (suc i) m k best (omega arith) h top beaten)
  ]

-- Against itself, a document agrees around the target at least as far as around any other place.
matches_from-le :
    (rounds : ℕ) (dir : Direction) (xs : List Bytes) (c t : ℤ) (step : ℕ)
    → matches_from rounds dir xs xs c t step ≤ matches_from rounds dir xs xs t t step
unfolding matches_from
matches_from-le zero dir xs c t step = omega arith
matches_from-le (suc rounds) dir xs c t step =
    elim (Option-cases (get_at xs (neighbour dir t step))) [
      | inl e ↦ ground arith
      | inr (o, e) ↦ ground (arith, str_eq_refl o, matches_from-le rounds dir xs c t (suc step))
    ]

rating-lt : (p q u v j k : ℕ) → p ≤ q → u ≤ v → j ≢ k → rating p u j (pos k) <ℤ rating q v k (pos k)
unfolding ◌-ℤ◌
rating-lt p q u v j k h g n = ground arith

-- In the document that the session read, no place scores as high as that of its own sentence.
pub score-top :
    (s : WriteSession) (k j : ℕ)
    → s.sentence_index ≡ pos k
    → j ≢ k
    → score s.sentences s j <ℤ score s.sentences s k
unfolding score count_context_matches
score-top s k j e n = rw e (
    rating-lt _ _ _ _ j k (matches_from-le 4 backward s.sentences (pos j) (pos k) 1)
      (matches_from-le 4 forward s.sentences (pos j) (pos k) 1) n)

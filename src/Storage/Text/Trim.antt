-- ===== src/Storage/Text/Trim.antt =====
-- What trimming does to a sentence: ss/ss_main.c, trim_spaces.
use co_write_file_system.Prelude.{
  ℕ, ◌≡◌, refl, inl, inr, [], ◌∷◌, ◌++◌, false, arith, Bytes, All, Bool-cases,
}
use co_write_file_system.Storage.Text.{is_blank, trim_last, trim_end, trim_start, trim_spaces}

abbrev pub IsTrimmed : Bytes → Type 0
IsTrimmed s = trim_spaces s ≡ s

trim_end-append :
    (body : Bytes) (d : ℕ) → is_blank d ≡ false → trim_end (body ++ d ∷ []) ≡ body ++ d ∷ []
unfolding trim_end
trim_end-append [] d h = ground arith
trim_end-append (c ∷ []) d h = ground arith
trim_end-append (c ∷ b ∷ body) d h = rw (trim_end-append (b ∷ body) d h)

trim_start-append :
    (body : Bytes) (d : ℕ)
    → is_blank d ≡ false
    → trim_start (body ++ d ∷ []) ≡ trim_start body ++ d ∷ []
unfolding trim_start
trim_start-append [] d h = ground arith
trim_start-append (c ∷ body) d h = ground (arith, trim_start-append body d)

pub trim_spaces-append :
    (body : Bytes) (d : ℕ)
    → is_blank d ≡ false
    → trim_spaces (body ++ d ∷ []) ≡ trim_start body ++ d ∷ []
unfolding trim_spaces
trim_spaces-append body d h = rw (trim_end-append body d h) (trim_start-append body d h)

trim_start_idem : (s : Bytes) → trim_start (trim_start s) ≡ trim_start s
unfolding trim_start
trim_start_idem [] = refl
trim_start_idem (c ∷ s) = ground (arith, trim_start_idem s)

trim_end_last : (c : ℕ) (r : Bytes) → trim_end r ≡ r → trim_end (trim_last c r) ≡ trim_last c r
unfolding trim_end
trim_end_last c [] e = ground arith
trim_end_last c (d ∷ r) e = rw e

trim_end_idem : (s : Bytes) → trim_end (trim_end s) ≡ trim_end s
unfolding trim_end
trim_end_idem [] = refl
trim_end_idem (c ∷ s) = trim_end_last c (trim_end s) (trim_end_idem s)

trim_last_tail : (c : ℕ) (r s : Bytes) → trim_last c r ≡ c ∷ s → r ≡ s
trim_last_tail c [] s e = ground arith
trim_last_tail c (d ∷ r) s e = cc e

trim_end-trim_start : (s : Bytes) → trim_end s ≡ s → trim_end (trim_start s) ≡ trim_start s
unfolding trim_end trim_start
trim_end-trim_start [] e = refl
trim_end-trim_start (c ∷ s) e = elim (Bool-cases (is_blank c)) [
  | inl b ↦ rw (b, trim_start) (trim_end-trim_start s (trim_last_tail c (trim_end s) s e))
  | inr b ↦ rw (b, trim_start) e
]

pub trim_spaces-IsTrimmed : (s : Bytes) → IsTrimmed (trim_spaces s)
unfolding trim_spaces
trim_spaces-IsTrimmed s =
    rw (trim_end-trim_start (trim_end s) (trim_end_idem s)) (trim_start_idem (trim_end s))

pub trim_spaces_blank : (s : Bytes) → trim_spaces (32 ∷ s) ≡ trim_spaces s
unfolding trim_spaces trim_end trim_start
trim_spaces_blank s = last (trim_end s)
  where
    last : (r : Bytes) → trim_start (trim_last 32 r) ≡ trim_start r
    last [] = refl
    last (d ∷ r) = refl

module _ (P : ℕ → Type 0) where
  All-trim_last : (c : ℕ) (r : Bytes) → P c → All P r → All P (trim_last c r)
  All-trim_last c [] p h = elim (Bool-cases (is_blank c)) [
    | inl e ↦ rw (e, trim_last) tt
    | inr e ↦ rw (e, trim_last) (p, tt)
  ]
  All-trim_last c (d ∷ r) p h = (p, h)

  All-trim_end : (s : Bytes) → All P s → All P (trim_end s)
  unfolding trim_end
  All-trim_end [] h = tt
  All-trim_end (c ∷ s) h = All-trim_last c (trim_end s) h.0 (All-trim_end s h.1)

  pub All-trim_start : (s : Bytes) → All P s → All P (trim_start s)
  unfolding trim_start
  All-trim_start [] h = tt
  All-trim_start (c ∷ s) h = elim (Bool-cases (is_blank c)) [
    | inl e ↦ rw (e, trim_start) (All-trim_start s h.1)
    | inr e ↦ rw (e, trim_start) h
  ]

  pub All-trim_spaces : (s : Bytes) → All P s → All P (trim_spaces s)
  unfolding trim_spaces
  All-trim_spaces s h = All-trim_start (trim_end s) (All-trim_end s h)

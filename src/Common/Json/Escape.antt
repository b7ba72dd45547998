-- ===== src/Common/Json/Escape.antt =====
-- common/json_util.c: what is escaped is read back.
use co_write_file_system.Prelude.{
  ℕ, suc, ◌+◌, ◌≡◌, ◌≢◌, ◌⊎◌, inl, inr, Option-cases, refl, ap, ◌∙◌, [], ◌∷◌, ◌++◌, none, some, leb,
  if◌then◌else◌, Bytes, length, length-append, arith,
}
use co_write_file_system.Common.Json.{
  letter, piece, prepend, escape_from, escape_value, escape_length, json_escape_dup, unescape,
  copy_value,
}

-- The escaped text, with no bound.
unfoldable pub escaped : Bytes → Bytes
escaped [] = []
escaped (c ∷ s) = piece c ++ escaped s

pub escape_length-escaped : (s : Bytes) → escape_length s ≡ length (escaped s)
unfolding escape_length escaped
escape_length-escaped [] = refl
escape_length-escaped (c ∷ s) = ground (arith, escape_length-escaped s)

escape_from-bounded :
    (size pos : ℕ) (s : Bytes)
    → escape_from size pos s
      ≡ (if leb size (pos + length (escaped s)) then none else some (escaped s))
unfolding escape_from escaped
escape_from-bounded size pos [] = ground arith
escape_from-bounded size pos (c ∷ s) = ground (
  arith,
  escape_from-bounded size (pos + length (piece c)) s,
  length-append (piece c) (escaped s),
)

-- The escaping succeeds just when the escaped text and its NUL fit the buffer.
pub escape_value_lem :
    (size : ℕ) (s : Bytes)
    → escape_value size s ≡ (if leb size (length (escaped s)) then none else some (escaped s))
unfolding escape_value
escape_value_lem size s = ground (arith, escape_from-bounded size 0 s)

-- The buffer that json_escape_dup allocates is large enough for every string.
pub json_escape_dup_lem : (s : Bytes) → json_escape_dup s ≡ some (escaped s)
unfolding json_escape_dup
json_escape_dup_lem s =
    let len = escape_length-escaped s in
    let out = escape_value_lem (suc (escape_length s)) s in ground (arith, len, out)

abbrev IsPieceOf : ℕ → Bytes → Type 0
IsPieceOf c p =
    ((p ≡ c ∷ []) × (c ≢ 34) × (c ≢ 92)) ⊎ ((l : ℕ) × (p ≡ 92 ∷ l ∷ []) × (unescape l ≡ c))

piece-cases : (c : ℕ) → IsPieceOf c (piece c)
piece-cases c = elim (Option-cases (letter c)) [
  | inl e ↦ inl (rw (e, piece) refl, ground arith, ground arith)
  | inr (l, e) ↦ inr (l, rw (e, piece) refl, ground arith)
]

copy_value-backslash :
    (l : ℕ) (s : Bytes) → copy_value (92 ∷ l ∷ s) ≡ prepend (unescape l ∷ []) (copy_value s)
unfolding copy_value
copy_value-backslash l s = refl

pub copy_value-plain :
    (c : ℕ) (s : Bytes) → c ≢ 34 → c ≢ 92 → copy_value (c ∷ s) ≡ prepend (c ∷ []) (copy_value s)
unfolding copy_value
copy_value-plain c [] h k = ground arith
copy_value-plain c (n ∷ s) h k = ground arith

-- Reading what was escaped, up to the quote behind it, gives the string again.
pub copy_value-escaped : (s rest : Bytes) → copy_value (escaped s ++ 34 ∷ rest) ≡ some s
unfolding escaped
copy_value-escaped [] [] = unfold copy_value in refl
copy_value-escaped [] (r ∷ rest) = unfold copy_value in refl
copy_value-escaped (c ∷ s) rest =
    let later = copy_value-escaped s rest in
    elim (piece-cases c) [
      | inl (e, h, k) ↦ rw e (copy_value-plain c _ h k ∙ ap (prepend (c ∷ [])) later)
      | inr (l, e, u) ↦ rw e (
          copy_value-backslash l _
          ∙ ap (prepend (unescape l ∷ [])) later
          ∙ ap (λ x. some (x ∷ s)) u)
    ]

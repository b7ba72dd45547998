-- ===== src/Common/Json/Bounds.antt =====
-- common/json_util.c: json_get_string stays within its buffer.
use co_write_file_system.Prelude.{
  ℕ, zero, suc, subst, ◌+◌, ◌<◌, ◌≡◌, inl, inr, Bool, true, false, [], ◌∷◌, Option, none, some, leb,
  ◌==◌, arith, Bytes, length, Bool-cases, if◌then◌else◌,
}
use co_write_file_system.Common.Json.{
  prepend, read_into, unescape, string_from, json_get_string, find_field,
}

-- A result fits behind `pos` bytes, with its NUL.
abbrev Fits : ℕ → ℕ → Option Bytes → Type 0
Fits size pos none = Unit
Fits size pos (some v) = pos + length v < size

Fits-prepend :
    (size pos c : ℕ) (r : Option Bytes) → Fits size (suc pos) r → Fits size pos (prepend (c ∷ []) r)
Fits-prepend size pos c none h = tt
Fits-prepend size pos c (some v) h = omega arith

Fits-guard :
    (size pos : ℕ) (b : Bool) (r : Option Bytes)
    → Fits size pos r
    → Fits size pos (if b then none else r)
Fits-guard size pos true r h = tt
Fits-guard size pos false r h = h

Fits-end : (size pos : ℕ) → Fits size pos (if leb size pos then none else some [])
Fits-end size pos = elim (Bool-cases (leb size pos)) [
  | inl e ↦ rw e tt
  | inr e ↦ rw e (ground arith)
]

Fits-if :
    (size pos : ℕ) (b : Bool) (x y : Option Bytes)
    → Fits size pos x
    → Fits size pos y
    → Fits size pos (if b then x else y)
Fits-if size pos true x y h k = h
Fits-if size pos false x y h k = k

read_into-Fits : (size pos : ℕ) (s : Bytes) → Fits size pos (read_into size pos s)
unfolding read_into
read_into-Fits size pos [] = tt
read_into-Fits size pos (c ∷ []) = Fits-if size pos (c == 34) _ none (Fits-end size pos) tt
read_into-Fits size pos (c ∷ next ∷ s) =
    Fits-if size pos (c == 92) _ _
      (Fits-guard size pos (leb size (suc pos)) _
        (Fits-prepend size pos (unescape next) _ (read_into-Fits size (suc pos) s)))
      (Fits-if size pos (c == 34) _ _ (Fits-end size pos) (
        Fits-guard size pos (leb size (suc pos)) _
          (Fits-prepend size pos c _ (read_into-Fits size (suc pos) (next ∷ s)))))

string_from-Fits : (size : ℕ) (field : Option Bytes) → Fits size 0 (string_from size field)
string_from-Fits zero field = tt
string_from-Fits (suc n) none = tt
string_from-Fits (suc n) (some rest) = read_into-Fits (suc n) 0 rest

-- The string that json_get_string gives and its NUL fit in the buffer.
pub json_get_string-length :
    (json key : Bytes) (size : ℕ) {v : Bytes}
    → json_get_string json key size ≡ some v
    → length v < size
unfolding json_get_string
json_get_string-length json key size {v} h =
    let fits = subst (Fits size 0) h (string_from-Fits size (find_field json key)) in omega arith

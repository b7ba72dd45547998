-- ===== src/Common/Json/Numbers.antt =====
-- common/json_util.c: json_get_int, with the strtol that it calls for a number in decimal, and a long of
-- 64 bits.
use co_write_file_system.Prelude.{
  ℕ, zero, suc, ◌+◌, ◌-◌, ◌*◌, ◌^◌, ◌%◌, Bool, ◌&&◌, ◌||◌, [], ◌∷◌, ◌++◌, Option, none, some, leb,
  ltb, ◌==◌, if◌then◌else◌, Bytes, length, ℤ, pos, negsuc,
}
use co_write_file_system.Common.Json.{after_first}

-- isspace of the C locale.
abbrev pub isspace : ℕ → Bool
isspace c = c == 32 || (leb 9 c && leb c 13)

unfoldable pub skip_spaces : Bytes → Bytes
skip_spaces [] = []
skip_spaces (c ∷ s) = let rest = skip_spaces s in if isspace c then rest else c ∷ s

abbrev pub is_digit : ℕ → Bool
is_digit c = leb 48 c && leb c 57

-- The value of the digits at the start, behind those that gave `n`.
unfoldable pub digits_from : ℕ → Bytes → ℕ
digits_from n [] = n
digits_from n (c ∷ s) =
    let more = digits_from (10 * n + (c - 48)) s in if is_digit c then more else n

-- No digit at all is no number: then strtol gives back its start.
abbrev pub digits : Bytes → Option ℕ
digits [] = none
digits (c ∷ s) = if is_digit c then some (digits_from 0 (c ∷ s)) else none

-- A value out of range is LONG_MAX or LONG_MIN.
abbrev pub long_max : ℕ
long_max = 2 ^ 63 - 1

abbrev pub to_positive : Option ℕ → Option ℤ
to_positive none = none
to_positive (some n) = some (pos (if leb n long_max then n else long_max))

abbrev pub negated : ℕ → ℤ
negated zero = pos 0
negated (suc n) = negsuc n

abbrev pub to_negative : Option ℕ → Option ℤ
to_negative none = none
to_negative (some n) = some (negated (if leb n (suc long_max) then n else suc long_max))

abbrev pub signed_digits : Bytes → Option ℤ
signed_digits [] = none
signed_digits (c ∷ s) =
    if c == 45
    then to_negative (digits s)
    else if c == 43
    then to_positive (digits s)
    else to_positive (digits (c ∷ s))

-- `none` is a call that reads nothing.
abbrev pub strtol : Bytes → Option ℤ
strtol s = signed_digits (skip_spaces s)

-- The cast to an int of 32 bits keeps the low bits.
abbrev pub int_of : ℕ → ℤ
int_of n = if ltb n (2 ^ 31) then pos n else negsuc (2 ^ 32 - 1 - n)

unfoldable pub to_int : ℤ → ℤ
to_int (pos n) = int_of (n % 2 ^ 32)
to_int (negsuc n) = int_of (2 ^ 32 - 1 - n % 2 ^ 32)

abbrev pub int_from : Option Bytes → Option ℤ
int_from none = none
int_from (some rest) = elim (strtol (skip_spaces rest)) [ none ↦ none | some n ↦ some (to_int n) ]

abbrev pub int_pattern : Bytes → Bytes
int_pattern key = 34 ∷ key ++ (34 ∷ 58 ∷ [])

-- `none` is -1, which leaves the result of the caller as it is.
unfoldable pub json_get_int : Bytes → Bytes → Option ℤ
json_get_int json key =
    if leb 128 (length (int_pattern key))
    then none
    else int_from (after_first (int_pattern key) json)

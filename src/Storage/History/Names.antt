-- ===== src/Storage/History/Names.antt =====
-- ss/ss_main.c, valid_filename against a description of the names that it takes.
use co_write_file_system.Prelude.{
  ℕ, ◌≤◌, ◌≡◌, ◌≢◌, ◌↔◌, refl, true, false, [], ◌∷◌, Bytes, All, arith,
}
use co_write_file_system.Storage.History.{starts_with_dot, valid_chars, valid_filename}

-- A printable ASCII character other than the two slashes.
abbrev pub IsPlain : ℕ → Type 0
IsPlain c = (32 ≤ c) × (c ≤ 126) × (c ≢ 47) × (c ≢ 92)

-- No two dots in a row.
abbrev pub HasNoDots : Bytes → Type 0
HasNoDots [] = Unit
HasNoDots (c ∷ s) = ¬ ((c ≡ 46) × (starts_with_dot s ≡ true)) × HasNoDots s

-- A name that stays in its directory.
abbrev pub IsSafeName : Bytes → Type 0
IsSafeName s = (s ≢ []) × (starts_with_dot s ≡ false) × All IsPlain s × HasNoDots s

valid_chars_rest : (s : Bytes) → (valid_chars false s ≡ true) ↔ (All IsPlain s × HasNoDots s)
unfolding valid_chars
valid_chars_rest [] = (λ _. (tt, tt), λ _. refl)
valid_chars_rest (c ∷ s) = ground (arith, valid_chars_rest s)

-- valid_filename takes a name just when it is not empty, does not start with a dot, has no two dots
-- in a row, and has only printable ASCII characters other than the slash and the backslash.
pub valid_filename_iff : (s : Bytes) → (valid_filename s ≡ true) ↔ IsSafeName s
unfolding valid_filename valid_chars
valid_filename_iff [] = ground arith
valid_filename_iff (c ∷ s) = ground (arith, valid_chars_rest s)

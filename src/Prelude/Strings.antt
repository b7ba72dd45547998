-- ===== src/Prelude/Strings.antt =====
-- C strings: the bytes before the terminating NUL, each below 256.
use Prim.Native.Nat.{ℕ, suc, ◌≤◌, ◌-◌, compare, Ordering}
use Prim.Native.Char.{code}
use Prim.Native.String.{String}
use mathlib.Core.Path.{◌≡◌, refl, sym, ◌∙◌}
use mathlib.Core.Logic.{◌↔◌}
use mathlib.Core.Bool.{Bool, true, false, ◌&&◌}
use mathlib.Core.List.{List, [], ◌∷◌}
use native.Mathlib.Omega.{arith}
use co_write_file_system.Prelude.Tests.{◌==◌}
use co_write_file_system.Prelude.Lists.{length, take, take_all}

abbrev pub Bytes : Type 0
Bytes = List ℕ

-- The code points of a literal; these are its bytes when the text is ASCII.
abbrev pub codes : String → Bytes
codes String.[] = []
codes (String.◌∷◌ c s) = code c ∷ codes s

-- `strcmp(a, b) == 0`.
unfoldable pub str_eq : Bytes → Bytes → Bool
str_eq [] [] = true
str_eq [] (b ∷ t) = false
str_eq (a ∷ s) [] = false
str_eq (a ∷ s) (b ∷ t) = a == b && str_eq s t

pub str_eq→≡ : (s t : Bytes) → str_eq s t ≡ true → s ≡ t
unfolding str_eq
str_eq→≡ [] [] h = refl
str_eq→≡ [] (b ∷ t) h = cc
str_eq→≡ (a ∷ s) [] h = cc
str_eq→≡ (a ∷ s) (b ∷ t) h = ground (arith, str_eq→≡ s t)

pub str_eq_refl : (s : Bytes) → str_eq s s ≡ true
unfolding str_eq
str_eq_refl [] = refl
str_eq_refl (a ∷ s) = ground (arith, str_eq_refl s)

pub str_eq_iff : (s t : Bytes) → (str_eq s t ≡ true) ↔ (s ≡ t)
str_eq_iff s t = (str_eq→≡ s t, λ e. rw e (str_eq_refl t))

-- `snprintf(buf, size, "%s", s)`: at most `size - 1` bytes are kept.
unfoldable pub copy_into : ℕ → Bytes → Bytes
copy_into size s = take (size - 1) s

pub copy_into_fits : (size : ℕ) (s : Bytes) → suc (length s) ≤ size → copy_into size s ≡ s
unfolding copy_into
copy_into_fits size s h = take_all (size - 1) s (omega arith)

-- `strcmp`, by the bytes as unsigned numbers.
unfoldable pub strcmp : Bytes → Bytes → Ordering
strcmp [] [] = Ordering.eq
strcmp [] (b ∷ t) = Ordering.lt
strcmp (a ∷ s) [] = Ordering.gt
strcmp (a ∷ s) (b ∷ t) = elim (compare a b) [
  | Ordering.lt ↦ Ordering.lt
  | Ordering.eq ↦ strcmp s t
  | Ordering.gt ↦ Ordering.gt
]

-- The name `a` stands before the name `b`.
infix 50 ◌≺◌
abbrev pub ◌≺◌ : Bytes → Bytes → Type 0
a ≺ b = strcmp a b ≡ Ordering.lt

pub ≺_trans : (a b c : Bytes) → a ≺ b → b ≺ c → a ≺ c
unfolding strcmp
≺_trans [] [] c h k = k
≺_trans [] (y ∷ b) [] h k = cc k
≺_trans [] (y ∷ b) (z ∷ c) h k = refl
≺_trans (x ∷ a) [] c h k = cc h
≺_trans (x ∷ a) (y ∷ b) [] h k = cc k
≺_trans (x ∷ a) (y ∷ b) (z ∷ c) h k = ground (arith, ≺_trans a b c)

pub strcmp-eq : (a b : Bytes) → strcmp a b ≡ Ordering.eq → a ≡ b
unfolding strcmp
strcmp-eq [] [] h = refl
strcmp-eq [] (y ∷ b) h = cc h
strcmp-eq (x ∷ a) [] h = cc h
strcmp-eq (x ∷ a) (y ∷ b) h = ground (arith, strcmp-eq a b)

pub strcmp-gt : (a b : Bytes) → strcmp a b ≡ Ordering.gt → b ≺ a
unfolding strcmp
strcmp-gt [] [] h = cc h
strcmp-gt [] (y ∷ b) h = cc h
strcmp-gt (x ∷ a) [] h = refl
strcmp-gt (x ∷ a) (y ∷ b) h = ground (arith, strcmp-gt a b)

pub strcmp_refl : (a : Bytes) → strcmp a a ≡ Ordering.eq
unfolding strcmp
strcmp_refl [] = refl
strcmp_refl (x ∷ a) = ground (arith, strcmp_refl a)

pub ≺_irrefl : (a : Bytes) → ¬ (a ≺ a)
≺_irrefl a h = cc (sym (strcmp_refl a) ∙ h)

-- ===== src/Prelude/Wrap.antt =====
-- The remainder of a sum of two numbers below the divisor: the sum, or the sum less the divisor.
use Prim.Native.Nat.{ℕ, zero, suc, ◌+◌, ◌-◌, ◌%◌, ◌≤◌, ◌<◌, mod_helper}
use Prim.Native.Nat.mod
use mathlib.Core.Path.{◌≡◌, ap, ◌∙◌}
use native.Mathlib.Omega.{arith}

mod_small : (k m n j : ℕ) → n ≤ j → mod_helper k m n j ≡ n + k
mod_small k m zero j h = omega arith
mod_small k m (suc n) zero h = absurd (omega arith)
mod_small k m (suc n) (suc j) h = mod_small (suc k) m n j (omega arith) ∙ omega arith

mod_big : (k m n j : ℕ) → j < n → mod_helper k m n j ≡ mod_helper zero m (n - suc j) m
mod_big k m zero j h = absurd (omega arith)
mod_big k m (suc n) zero h = ap (λ (x : ℕ). mod_helper zero m x m) (omega arith)
mod_big k m (suc n) (suc j) h =
    mod_big (suc k) m n j (omega arith) ∙ ap (λ (x : ℕ). mod_helper zero m x m) (omega arith)

pub mod-below : (a n : ℕ) → a < n → a % n ≡ a
mod-below a zero h = absurd (omega arith)
mod-below a (suc n) h = mod.suc a n ∙ mod_small zero n a n (omega arith) ∙ omega arith

pub mod-less : (a n : ℕ) → n ≤ a → a < n + n → a % n ≡ a - n
mod-less a zero h h' = absurd (omega arith)
mod-less a (suc n) h h' =
    mod.suc a n
    ∙ mod_big zero n a n (omega arith)
    ∙ mod_small zero n (a - suc n) n (omega arith)
    ∙ omega arith

pub mod-lt : (a n : ℕ) → 0 < n → a % n < n
mod-lt a zero h = absurd (omega arith)
mod-lt a (suc n) h = omega arith

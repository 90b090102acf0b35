-- ===== src/Base/Bytes.antt =====
-- Properties of bytes, checked for every value below a bound.
use Prim.Native.Nat.{ℕ, zero, suc, ◌<◌}
use mathlib.Core.Path.{◌≡◌}
use mathlib.Core.Bool.{Bool, true, ◌&&◌}
use native.Mathlib.Omega.{arith}

unfoldable pub all_below : ℕ → (ℕ → Bool) → Bool
all_below zero p = true
all_below (suc n) p = p n && all_below n p

pub of_all_below : (n : ℕ) (p : ℕ → Bool) (x : ℕ) → all_below n p ≡ true → x < n → p x ≡ true
unfolding all_below
of_all_below zero p x h lt = absurd (omega arith)
of_all_below (suc n) p x h lt = ground (arith, of_all_below n p x)

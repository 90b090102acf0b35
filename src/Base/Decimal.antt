-- ===== src/Base/Decimal.antt =====
-- strconv.Itoa and strconv.Atoi on numbers that are not negative.
use Prim.Native.Nat.{ℕ, zero, suc, ◌+◌, ◌-◌, ◌*◌, ◌/◌, ◌%◌}
use mathlib.Core.Bool.{Bool, ◌&&◌}
use mathlib.Core.Option.{Option, none, some}
use mathlib.Core.List.{[], ◌∷◌}
use proxclt.Base.Tests.{leb, ltb, if◌then◌else◌}
use proxclt.Base.Text.{Str}

-- Fuel `n + 1` is enough, since each round divides by ten.
unfoldable pub itoa_from : ℕ → ℕ → Str → Str
itoa_from zero n acc = acc
itoa_from (suc f) n acc =
    let rest = itoa_from f (n / 10) ((48 + n % 10) ∷ acc) in
    if ltb n 10 then (48 + n) ∷ acc else rest

unfoldable pub itoa : ℕ → Str
unfolding itoa_from
itoa n = itoa_from (suc n) n []

unfoldable pub is_digit : ℕ → Bool
is_digit c = leb 48 c && leb c 57

unfoldable pub atoi_from : ℕ → Str → Option ℕ
unfolding is_digit
atoi_from n [] = some n
atoi_from n (c ∷ s) = if is_digit c then atoi_from (n * 10 + (c - 48)) s else none

-- A sign is not accepted here, nor is the range of int checked.
unfoldable pub atoi : Str → Option ℕ
unfolding atoi_from
atoi [] = none
atoi (c ∷ s) = atoi_from 0 (c ∷ s)

-- ===== src/Base/Trimming.antt =====
-- Laws of strings.TrimSpace.
use Prim.Native.Nat.{ℕ}
use mathlib.Core.Path.{◌≡◌, refl, sym, ap, ◌∙◌}
use mathlib.Core.Bool.{false}
use mathlib.Core.List.{[], ◌∷◌, ◌++◌, reverse, reverse-append, reverse-reverse}
use proxclt.Base.Text.{Str, is_space, trim_left, trim_right, trim_space}

trim_left-mark : (c : ℕ) (s : Str) → is_space c ≡ false → trim_left (c ∷ s) ≡ c ∷ s
unfolding trim_left
trim_left-mark c s h = rw (h, trim_left) refl

trim_right-mark : (s : Str) (c : ℕ) → is_space c ≡ false → trim_right (s ++ c ∷ []) ≡ s ++ c ∷ []
unfolding trim_right
trim_right-mark s c h =
    ap (λ t. reverse (trim_left t)) (reverse-append s (c ∷ []))
    ∙ ap reverse (trim_left-mark c (reverse s) h)
    ∙ ap reverse (sym (reverse-append s (c ∷ [])))
    ∙ reverse-reverse (s ++ c ∷ [])

-- A text that begins and ends with bytes that are no white space stays.
pub trim_space-marks :
    (c : ℕ) (s : Str) (e : ℕ)
    → is_space c ≡ false
    → is_space e ≡ false
    → trim_space (c ∷ s ++ e ∷ []) ≡ c ∷ s ++ e ∷ []
unfolding trim_space
trim_space-marks c s e hc he =
    ap trim_right (trim_left-mark c (s ++ e ∷ []) hc) ∙ trim_right-mark (c ∷ s) e he

pub trim_space-blank : (s : Str) → trim_space (32 ∷ s) ≡ trim_space s
unfolding trim_space trim_left is_space
trim_space-blank s = refl

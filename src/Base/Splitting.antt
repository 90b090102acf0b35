-- ===== src/Base/Splitting.antt =====
-- Laws of the functions that cut texts and search in them.
use Prim.Native.Nat.{ℕ, ◌<◌}
use mathlib.Core.Path.{◌≡◌, refl, ap, ◌∙◌}
use mathlib.Core.Logic.{◌≢◌, inl, inr}
use mathlib.Core.Bool.{true, false, ◌||◌}
use mathlib.Core.Option.{Option, none, some}
use mathlib.Core.List.{List, [], ◌∷◌, ◌++◌, append-nil, append_assoc}
use native.Mathlib.Omega.{arith}
use proxclt.Base.Tests.{◌==◌, Bool-cases}
use proxclt.Base.Lists.{All, length}
use proxclt.Base.Text.{
  Str, has_byte, prefixed, cut_byte, split, split_from, join, has_prefix, contains,
}

-- The first part of a text ends at the first separator.
pub cut_byte-append :
    (b : ℕ) (s t : Str) → has_byte b s ≡ false → cut_byte b (s ++ b ∷ t) ≡ some (s, t)
unfolding cut_byte has_byte
cut_byte-append b [] t h = ground arith
cut_byte-append b (a ∷ s) t h = ground (arith, cut_byte-append b s t)

pub split_from-append :
    (b : ℕ) (word s t : Str)
    → has_byte b s ≡ false
    → split_from b word (s ++ b ∷ t) ≡ (word ++ s) ∷ split b t
unfolding split split_from has_byte
split_from-append b word [] t h = rw append-nil (ground arith)
split_from-append b word (a ∷ s) t h =
    ground (arith, split_from-append b (word ++ a ∷ []) s t, append_assoc word (a ∷ []) s)

pub split_from-last :
    (b : ℕ) (word s : Str) → has_byte b s ≡ false → split_from b word s ≡ (word ++ s) ∷ []
unfolding split_from has_byte
split_from-last b word [] h = rw append-nil
split_from-last b word (a ∷ s) h =
    ground (arith, split_from-last b (word ++ a ∷ []) s, append_assoc word (a ∷ []) s)

pub split-append : (b : ℕ) (s t : Str) → has_byte b s ≡ false → split b (s ++ b ∷ t) ≡ s ∷ split b t
unfolding split
split-append b s t h = split_from-append b [] s t h

pub split-last : (b : ℕ) (s : Str) → has_byte b s ≡ false → split b s ≡ s ∷ []
unfolding split
split-last b s h = split_from-last b [] s h

split_from-snoc :
    (b : ℕ) (word s t : Str)
    → has_byte b t ≡ false
    → split_from b word (s ++ b ∷ t) ≡ split_from b word s ++ t ∷ []
unfolding split_from
split_from-snoc b word [] t h =
    let e : (b == b) ≡ true = ground arith in
    rw (e, split_from) (ap (λ r. word ∷ r) (split_from-last b [] t h))
split_from-snoc b word (a ∷ s) t h = elim (Bool-cases (a == b)) [
  | inl e ↦ rw (e, split_from) (ap (λ r. word ∷ r) (split_from-snoc b [] s t h))
  | inr e ↦ rw (e, split_from) (split_from-snoc b (word ++ a ∷ []) s t h)
]

-- The part after the last separator.
pub split-snoc :
    (b : ℕ) (s t : Str) → has_byte b t ≡ false → split b (s ++ b ∷ t) ≡ split b s ++ t ∷ []
unfolding split
split-snoc b s t h = split_from-snoc b [] s t h

pub has_byte-append : (b : ℕ) (s t : Str) → has_byte b (s ++ t) ≡ (has_byte b s || has_byte b t)
unfolding has_byte
has_byte-append b [] t = refl
has_byte-append b (a ∷ s) t = ground (arith, has_byte-append b s t)

abbrev pub Without : ℕ → Str → Type 0
Without b s = has_byte b s ≡ false

pub Without-append : (b : ℕ) (s t : Str) → Without b s → Without b t → Without b (s ++ t)
Without-append b s t h k = ground (arith, has_byte-append b s t)

pub Without-parts : (b : ℕ) (s t : Str) → Without b (s ++ t) → Without b s × Without b t
Without-parts b s t h = ground (arith, has_byte-append b s t)

-- The parts of a split hold no separator.
split_from-Without : (b : ℕ) (word s : Str) → Without b word → All (Without b) (split_from b word s)
unfolding split_from has_byte
split_from-Without b word [] h = (h, tt)
split_from-Without b word (a ∷ s) h = elim (Bool-cases (a == b)) [
  | inl sep ↦ rw (sep, split_from) (h, split_from-Without b [] s refl)
  | inr other ↦
      rw (other, split_from)
        (split_from-Without b (word ++ a ∷ []) s
          (Without-append b word (a ∷ []) h (rw (other, has_byte))))
]

pub split-Without : (b : ℕ) (s : Str) → All (Without b) (split b s)
unfolding split has_byte
split-Without b s = split_from-Without b [] s refl

split_from-ne-nil : (b : ℕ) (word s : Str) → split_from b word s ≢ []
unfolding split_from
split_from-ne-nil b word [] h = cc
split_from-ne-nil b word (a ∷ s) h = elim (Bool-cases (a == b)) [
  | inl sep ↦ let bad = rw (sep, split_from) at h in cc bad
  | inr other ↦ let bad = rw (other, split_from) at h in split_from-ne-nil b (word ++ a ∷ []) s bad
]

pub split-ne-nil : (b : ℕ) (s : Str) → split b s ≢ []
unfolding split
split-ne-nil b s = split_from-ne-nil b [] s

-- Parts that hold no separator are found again in what Join makes of them.
pub split-join :
    (b : ℕ) (parts : List Str)
    → parts ≢ []
    → All (Without b) parts
    → split b (join (b ∷ []) parts) ≡ parts
unfolding join
split-join b [] h all = absurd (h refl)
split-join b (s ∷ []) h all = split-last b s all.0
split-join b (s ∷ t ∷ r) h all =
    ap (split b) (append_assoc s (b ∷ []) (join (b ∷ []) (t ∷ r)))
    ∙ split-append b s (join (b ∷ []) (t ∷ r)) all.0
    ∙ ap (λ z. s ∷ z) (split-join b (t ∷ r) (λ e. cc e) all.1)

nil_prefix : (s : Str) → has_prefix s [] ≡ true
unfolding has_prefix
nil_prefix [] = refl
nil_prefix (a ∷ s) = refl

has_prefix-append : (s t p : Str) → has_prefix s p ≡ true → has_prefix (s ++ t) p ≡ true
unfolding has_prefix
has_prefix-append s t [] h = nil_prefix (s ++ t)
has_prefix-append [] t (b ∷ p) h = cc
has_prefix-append (a ∷ s) t (b ∷ p) h = ground (arith, has_prefix-append s t p)

pub contains-append_left : (s t p : Str) → contains s p ≡ true → contains (s ++ t) p ≡ true
unfolding contains
contains-append_left [] [] p h = h
contains-append_left [] (a ∷ t) p h = rw (has_prefix-append [] (a ∷ t) p h)
contains-append_left (a ∷ s) t p h =
    ground (arith, contains-append_left s t p, has_prefix-append (a ∷ s) t p)

pub contains-append_right : (s t p : Str) → contains t p ≡ true → contains (s ++ t) p ≡ true
unfolding contains
contains-append_right [] t p h = h
contains-append_right (a ∷ s) t p h = ground (arith, contains-append_right s t p)

abbrev pub pieces : Str → Str → Option (Str × Str)
pieces before after = some (before, after)

pub prefixed-some :
    (c : ℕ) (o : Option (Str × Str)) {p r : Str}
    → prefixed c o ≡ some (p, r)
    → (t : Str) × (p ≡ c ∷ t) × (o ≡ some (t, r))
prefixed-some c none h = cc
prefixed-some c (some (a, b)) h = (a, ground arith, ground arith)

pub prefixed-cons :
    (c : ℕ) (o : Option (Str × Str)) (p r : Str) → prefixed c o ≡ some (c ∷ p, r) → o ≡ some (p, r)
prefixed-cons c none p r h = cc
prefixed-cons c (some (a, b)) p r h = ground arith

prefixed-none : (c : ℕ) (o : Option (Str × Str)) → prefixed c o ≡ none → o ≡ none
prefixed-none c none h = refl
prefixed-none c (some (a, b)) h = cc

-- The text after the byte is shorter.
pub cut_byte-length :
    (b : ℕ) (s : Str) {m t : Str} → cut_byte b s ≡ some (m, t) → length t < length s
unfolding cut_byte
cut_byte-length b [] h = cc
cut_byte-length b (a ∷ s) {m} {t} h = elim (Bool-cases (a == b)) [
  | inl found ↦
      let g : pieces [] s ≡ some (m, t) = rw (found, cut_byte) at h in
      let e : t ≡ s = ground arith in rw e (omega arith)
  | inr later ↦
      let g : prefixed a (cut_byte b s) ≡ some (m, t) = rw (later, cut_byte) at h in
      let (x, e, f) = prefixed-some a (cut_byte b s) g in
      let shorter = cut_byte-length b s f in omega arith
]

-- A byte that is there is found.
pub cut_byte-ne-none : (b : ℕ) (s t : Str) → cut_byte b (s ++ b ∷ t) ≢ none
unfolding cut_byte
cut_byte-ne-none b [] t h = ground arith
cut_byte-ne-none b (a ∷ s) t h = elim (Bool-cases (a == b)) [
  | inl found ↦ let g = rw (found, cut_byte) at h in cc g
  | inr later ↦
      let g : prefixed a (cut_byte b (s ++ b ∷ t)) ≡ none = rw (later, cut_byte) at h in
      cut_byte-ne-none b s t (prefixed-none a (cut_byte b (s ++ b ∷ t)) g)
]

-- ===== src/Root/Redact/Ends.antt =====
-- The loops of redactDeferredSecrets end, and leave no closed marker.
use proxclt.Base.{
  prefixed, pieces, prefixed-some, prefixed-cons, ℕ, Str, lit, has_prefix, has_byte, Without,
  Bool-cases, true, Option, none, some, [], ◌∷◌, ◌++◌, ◌≡◌, ◌⊎◌, inl, inr, refl, ap, ◌∙◌, arith,
}
use proxclt.Root.Redact.{cut_text}

-- The two prefixes: `<`, and then no `<` any more.
abbrev pub IsMarker : Str → Type 0
IsMarker p = (p ≡ lit "<VAULT:") ⊎ (p ≡ lit "<GEN_SSH_KEY:")

abbrev pub shift : Str → Option (Str × Str) → Option (Str × Str)
shift before none = none
shift before (some (a, b)) = some (before ++ a, b)

prefixed-shift :
    (c : ℕ) (p : Str) (o : Option (Str × Str)) → prefixed c (shift p o) ≡ shift (c ∷ p) o
prefixed-shift c p none = refl
prefixed-shift c p (some (a, b)) = refl

-- What stands from a `<` on does not decide whether a text without `<` is a prefix.
has_prefix-angle :
    (h q x y : Str) → Without b'<' q → has_prefix (h ++ b'<' ∷ x) q ≡ has_prefix (h ++ b'<' ∷ y) q
unfolding has_prefix has_byte
has_prefix-angle [] [] x y w = refl
has_prefix-angle [] (b ∷ q) x y w = ground arith
has_prefix-angle (a ∷ h) [] x y w = refl
has_prefix-angle (a ∷ h) (b ∷ q) x y w = ground (arith, has_prefix-angle h q x y)

shift-nil : (o : Option (Str × Str)) → o ≡ shift [] o
shift-nil none = refl
shift-nil (some (a, b)) = refl

-- What the text is cut into is the text, and the second part starts with the prefix.
pub cut_text-whole :
    (p s : Str) {before left : Str}
    → cut_text p s ≡ some (before, left)
    → (before ++ left ≡ s) × (has_prefix left p ≡ true)
unfolding cut_text
cut_text-whole p [] h = cc
cut_text-whole p (c ∷ s) {before} {left} h = elim (Bool-cases (has_prefix (c ∷ s) p)) [
  | inl found ↦
      let g : pieces [] (c ∷ s) ≡ some (before, left) = rw (found, cut_text) at h in
      let eb : before ≡ [] = ground arith in
      let el : left ≡ c ∷ s = ground arith in (rw (eb, el) refl, rw el found)
  | inr later ↦
      let g : prefixed c (cut_text p s) ≡ some (before, left) = rw (later, cut_text) at h in
      let (t, e, f) = prefixed-some c (cut_text p s) g in
      let (whole, starts) = cut_text-whole p s f in (rw e (ap (λ z. c ∷ z) whole), starts)
]

module _ (q : Str) (w : Without b'<' q) where
  abbrev pub prefix : Str
  prefix = b'<' ∷ q

  has_prefix-stop :
      (c : ℕ) (h x y : Str)
      → has_prefix (c ∷ (h ++ b'<' ∷ x)) prefix ≡ has_prefix (c ∷ (h ++ b'<' ∷ y)) prefix
  unfolding has_prefix
  has_prefix-stop c h x y = rw (has_prefix-angle h q x y w)

  -- Where a text is cut at a `<`, any other continuation with a `<` is looked at from there on.
  pub cut_text-again :
      (h r x : Str)
      → cut_text prefix (h ++ b'<' ∷ r) ≡ some (h, b'<' ∷ r)
      → cut_text prefix (h ++ b'<' ∷ x) ≡ shift h (cut_text prefix (b'<' ∷ x))
  unfolding cut_text
  cut_text-again [] r x e = shift-nil (cut_text prefix (b'<' ∷ x))
  cut_text-again (c ∷ h) r x e = elim (Bool-cases (has_prefix (c ∷ (h ++ b'<' ∷ r)) prefix)) [
    | inl found ↦
        let g : pieces [] (c ∷ (h ++ b'<' ∷ r)) ≡ some (c ∷ h, b'<' ∷ r) =
          rw (found, cut_text) at e in
        absurd (ground arith)
    | inr later ↦
        let g : prefixed c (cut_text prefix (h ++ b'<' ∷ r)) ≡ some (c ∷ h, b'<' ∷ r) =
          rw (later, cut_text) at e in
        let f = prefixed-cons c (cut_text prefix (h ++ b'<' ∷ r)) h (b'<' ∷ r) g in
        rw (has_prefix-stop c h x r ∙ later, cut_text)
          (rw (cut_text-again h r x f) (prefixed-shift c h (cut_text prefix (b'<' ∷ x))))
  ]

skip :
    (o : Option (Str × Str))
    → prefixed 60 (
        prefixed 82 (
          prefixed 69 (
            prefixed 68 (
              prefixed 65
                (prefixed 67 (prefixed 84 (prefixed 69 (prefixed 68 (prefixed 62 o)))))))))
      ≡ shift (lit "<REDACTED>") o
unfolding lit
skip none = refl
skip (some (a, b)) = refl

pub replaced-skipped :
    (p t : Str)
    → IsMarker p
    → cut_text p (lit "<REDACTED>" ++ t) ≡ shift (lit "<REDACTED>") (cut_text p t)
unfolding cut_text has_prefix lit
replaced-skipped p t (inl e) = rw e (skip (cut_text (lit "<VAULT:") t))
replaced-skipped p t (inr e) = rw e (skip (cut_text (lit "<GEN_SSH_KEY:") t))

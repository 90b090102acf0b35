-- ===== src/Root/Redact/Closed.antt =====
-- The loops of redactDeferredSecrets end by their own test, and leave no closed marker.
use mathlib.Core.Path.{subst}
use proxclt.Base.{
  prefixed, ℕ, zero, suc, ◌≤◌, ◌<◌, Str, lit, has_prefix, has_byte, cut_byte, length, length-append,
  cut_byte-length, cut_byte-ne-none, Without, Bool-cases, true, Option, none, some, Option-cases,
  [], ◌∷◌, ◌++◌, append_assoc, ◌≡◌, ◌≢◌, inl, inr, refl, sym, ap, ◌∙◌, arith,
}
use proxclt.Root.Redact.{cut_text, closed, marked, redact_once, redact_loop, redact_prefix}
use proxclt.Root.Redact.Ends.{IsMarker, shift, cut_text-whole, cut_text-again, replaced-skipped}

-- How much text there is from the first prefix on.
abbrev left_length : Option (Str × Str) → ℕ
left_length none = 0
left_length (some (before, left)) = length left

left_length-le : (p s : Str) → left_length (cut_text p s) ≤ length s
left_length-le p s = bound (cut_text p s) refl
  where
    bound : (o : Option (Str × Str)) → cut_text p s ≡ o → left_length o ≤ length s
    bound none e = omega arith
    bound (some (before, left)) e =
        let whole = (cut_text-whole p s e).0 in
        omega (arith, length-append before left, ap length whole)

left_length-shift : (h : Str) (o : Option (Str × Str)) → left_length (shift h o) ≡ left_length o
left_length-shift h none = refl
left_length-shift h (some (a, b)) = refl

-- A marker is `<` and a text without `<`.
IsMarker-split : (p : Str) → IsMarker p → (q : Str) × (p ≡ b'<' ∷ q) × Without b'<' q
unfolding lit has_byte
IsMarker-split p (inl e) = (lit "VAULT:", e, refl)
IsMarker-split p (inr e) = (lit "GEN_SSH_KEY:", e, refl)

starts-angle : (q left : Str) → has_prefix left (b'<' ∷ q) ≡ true → (r : Str) × (left ≡ b'<' ∷ r)
unfolding has_prefix
starts-angle q [] h = cc
starts-angle q (c ∷ r) h = (r, ground arith)

-- After a replacement, the search goes on behind it.
replaced-angle :
    (q : Str) (w : Without b'<' q)
    → IsMarker (b'<' ∷ q)
    → (before r t : Str) → cut_text (b'<' ∷ q) (before ++ b'<' ∷ r) ≡ some (before, b'<' ∷ r)
    → left_length (cut_text (b'<' ∷ q) (before ++ (lit "<REDACTED>" ++ t)))
      ≡ left_length (cut_text (b'<' ∷ q) t)
unfolding lit
replaced-angle q w marker before r t cut =
    ap left_length (cut_text-again q w before r (lit "REDACTED>" ++ t) cut)
    ∙ left_length-shift before (cut_text (b'<' ∷ q) (lit "<REDACTED>" ++ t))
    ∙ ap left_length (replaced-skipped (b'<' ∷ q) t marker)
    ∙ left_length-shift (lit "<REDACTED>") (cut_text (b'<' ∷ q) t)

replaced-left :
    (p : Str)
    → IsMarker p
    → (out : Str) {before left : Str} (t : Str) → cut_text p out ≡ some (before, left)
    → left_length (cut_text p (before ++ (lit "<REDACTED>" ++ t))) ≡ left_length (cut_text p t)
replaced-left p marker out {before} {left} t cut =
    let (q, ep, w) = IsMarker-split p marker in
    let (whole, starts) = cut_text-whole p out cut in
    let (r, el) = starts-angle q left (subst (λ z. has_prefix left z ≡ true) ep starts) in
    let cut' : cut_text p (before ++ left) ≡ some (before, left) = ap (cut_text p) whole ∙ cut in
    subst
      (λ z.
        left_length (cut_text z (before ++ (lit "<REDACTED>" ++ t))) ≡ left_length (cut_text z t))
      (sym ep)
      (replaced-angle q w (subst IsMarker ep marker) before r t (
        subst (λ z. cut_text (b'<' ∷ q) (before ++ z) ≡ some (before, z)) el
          (subst (λ z. cut_text z (before ++ left) ≡ some (before, left)) ep cut')))

-- Each round leaves less text after the first prefix.
redact_once-shorter :
    (p : Str)
    → IsMarker p
    → (out : Str) {next : Str} → redact_once p out ≡ some next
    → left_length (cut_text p next) < left_length (cut_text p out)
unfolding redact_once
redact_once-shorter p marker out {next} h = at_cut (cut_text p out) refl h
  where
    at_end :
        (before left : Str) (o : Option (Str × Str))
        → cut_text p out ≡ some (before, left)
        → cut_byte b'>' left ≡ o
        → closed before o ≡ some next
        → left_length (cut_text p next) < length left
    at_end before left none e f g = cc
    at_end before left (some (m, t)) e f g =
        let made : before ++ (lit "<REDACTED>" ++ t) ≡ next = ground arith in
        let same = ap (λ z. left_length (cut_text p z)) made in
        omega (
          arith,
          same,
          replaced-left p marker out t e,
          left_length-le p t,
          cut_byte-length b'>' left f,
        )

    at_cut :
        (o : Option (Str × Str))
        → cut_text p out ≡ o
        → marked o ≡ some next
        → left_length (cut_text p next) < left_length o
    at_cut none e g = cc
    at_cut (some (before, left)) e g = at_end before left (cut_byte b'>' left) e refl g

none-left :
    (p : Str)
    → IsMarker p
    → (out : Str) → left_length (cut_text p out) ≤ 0
    → redact_once p out ≡ none
unfolding redact_once
none-left p marker out h = at_cut (cut_text p out) refl h
  where
    at_cut : (o : Option (Str × Str)) → cut_text p out ≡ o → left_length o ≤ 0 → marked o ≡ none
    at_cut none e g = refl
    at_cut (some (before, [])) e g = refl
    at_cut (some (before, c ∷ left)) e g = absurd (omega arith)

-- With fuel for the text after the first prefix, the loop ends by its own test.
redact_loop-ends :
    (p : Str)
    → IsMarker p
    → (fuel : ℕ) (out : Str) → left_length (cut_text p out) ≤ fuel
    → redact_once p (redact_loop fuel p out) ≡ none
unfolding redact_loop
redact_loop-ends p marker zero out h = none-left p marker out h
redact_loop-ends p marker (suc fuel) out h = elim (Option-cases (redact_once p out)) [
  | inl done ↦ rw (done, redact_loop) done
  | inr (next, more) ↦
      let shorter = redact_once-shorter p marker out more in
      rw (more, redact_loop) (redact_loop-ends p marker fuel next (omega arith))
]

has_prefix-append : (p s : Str) → has_prefix (p ++ s) p ≡ true
unfolding has_prefix
has_prefix-append [] [] = refl
has_prefix-append [] (a ∷ s) = refl
has_prefix-append (b ∷ p) s = ground (arith, has_prefix-append p s)

-- The first prefix of a text is not after a given one.
cut_text-finds :
    (p h z : Str)
    → p ≢ []
    → (before : Str) × (between : Str) × (cut_text p (h ++ (p ++ z))
        ≡ some (before, between ++ (p ++ z)))
unfolding cut_text
cut_text-finds [] h z named = absurd (named refl)
cut_text-finds (b ∷ p) [] z named = ([], [], rw (has_prefix-append (b ∷ p) z, cut_text) refl)
cut_text-finds (b ∷ p) (c ∷ h) z named =
    elim (Bool-cases (has_prefix (c ∷ (h ++ (b ∷ p ++ z))) (b ∷ p))) [
      | inl found ↦ ([], c ∷ h, rw (found, cut_text) refl)
      | inr later ↦
          let (before, between, e) = cut_text-finds (b ∷ p) h z named in
          (c ∷ before, between, rw (later, cut_text) (ap (prefixed c) e))
    ]

closed-none : (before : Str) (o : Option (Str × Str)) → closed before o ≡ none → o ≡ none
unfolding closed
closed-none before none h = refl
closed-none before (some (a, b)) h = cc

marker-ne-nil : (p : Str) → IsMarker p → p ≢ []
marker-ne-nil p marker e = let (q, ep, w) = IsMarker-split p marker in cc (ep, e)

-- A closed marker is replaced.
marker-replaced :
    (p : Str) → IsMarker p → (h m t : Str) → redact_once p (h ++ (p ++ (m ++ b'>' ∷ t))) ≢ none
unfolding redact_once marked
marker-replaced p marker h m t g =
    let (before, between, e) = cut_text-finds p h (m ++ b'>' ∷ t) (marker-ne-nil p marker) in
    let left = between ++ (p ++ (m ++ b'>' ∷ t)) in
    let unclosed : closed before (cut_byte b'>' left) ≡ none = sym (ap marked e) ∙ g in
    let regroup : left ≡ (between ++ (p ++ m)) ++ b'>' ∷ t =
      ap (λ z. between ++ z) (sym (append_assoc p m (b'>' ∷ t)))
      ∙ sym (append_assoc between (p ++ m) (b'>' ∷ t)) in
    cut_byte-ne-none b'>' (between ++ (p ++ m)) t (
      subst (λ z. cut_byte b'>' z ≡ none) regroup
        (closed-none before (cut_byte b'>' left) unclosed))

-- For each of the two prefixes, the loop of redactDeferredSecrets ends within as many rounds as the string
-- has bytes, and its result holds no marker of this prefix that is closed by a `>`.
pub redact_prefix-Closed :
    (p : Str)
    → IsMarker p
    → (out : Str)
    → (redact_once p (redact_prefix p out) ≡ none)
      × ((h m t : Str) → redact_prefix p out ≢ h ++ (p ++ (m ++ b'>' ∷ t)))
unfolding redact_prefix
redact_prefix-Closed p marker out =
    let ends = redact_loop-ends p marker (length out) out (left_length-le p out) in
    (ends, λ h m t e. marker-replaced p marker h m t (subst (λ z. redact_once p z ≡ none) e ends))

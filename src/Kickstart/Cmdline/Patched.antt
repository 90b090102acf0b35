-- ===== src/Kickstart/Cmdline/Patched.antt =====
-- Patching a boot configuration a second time.
use proxclt.Base.{
  Str, lit, contains, has_prefix, ◌≡◌, refl, sym, ap, ◌∙◌, arith, ◌==◌, Bool-cases, true, false,
  Option, none, some, Option-cases, [], ◌∷◌, ◌++◌, inl, inr, ◌⊎◌, append_assoc,
  contains-append_left, contains-append_right,
}
use proxclt.Kickstart.Cmdline.{
  is_blank, span_blank, blank_next, after_prefix, body_after, or_else, match_verb, verbs, rewrite,
  patch_line, cut_separator, inject_at, inject_before_separator,
}

-- What the scan of blanks takes, and what it leaves.
pub span_blank-whole : (s : Str) → (span_blank s).0 ++ (span_blank s).1 ≡ s
unfolding span_blank
span_blank-whole [] = refl
span_blank-whole (c ∷ s) = elim (Bool-cases (is_blank c)) [
  | inl blank ↦ rw blank (ap (λ z. c ∷ z) (span_blank-whole s))
  | inr other ↦ rw other refl
]

span_blank-stops : (t : Str) → blank_next t ≡ false → span_blank t ≡ ([], t)
unfolding span_blank blank_next
span_blank-stops [] h = refl
span_blank-stops (c ∷ t) h = rw h refl

-- A scan stops where no blank is next.
span_blank-again :
    (s t : Str) → blank_next t ≡ false → span_blank ((span_blank s).0 ++ t) ≡ ((span_blank s).0, t)
unfolding span_blank
span_blank-again [] t h = span_blank-stops t h
span_blank-again (c ∷ s) t h = elim (Bool-cases (is_blank c)) [
  | inl blank ↦ rw blank (rw (span_blank-again s t h, blank) refl)
  | inr other ↦ rw other (span_blank-stops t h)
]

after_prefix-whole : (p s : Str) {t : Str} → after_prefix p s ≡ some t → p ++ t ≡ s
unfolding after_prefix
after_prefix-whole [] s h = ground arith
after_prefix-whole (b ∷ p) [] h = cc
after_prefix-whole (b ∷ p) (a ∷ s) {t} h = elim (Bool-cases (a == b)) [
  | inl same ↦
      let g : after_prefix p s ≡ some t = rw (same, after_prefix) at h in
      ground (arith, after_prefix-whole p s g)
  | inr other ↦ let bad = rw (other, after_prefix) at h in cc bad
]

-- The three verbs of the pattern.
abbrev pub IsVerb : Str → Type 0
IsVerb verb = (verb ≡ lit "linux") ⊎ ((verb ≡ lit "linuxefi") ⊎ (verb ≡ lit "append"))

or_else-some :
    (verb : Str) (o : Option Str) (later : Option (Str × Str)) {v body : Str}
    → or_else verb o later ≡ some (v, body)
    → ((v ≡ verb) × (o ≡ some body)) ⊎ (later ≡ some (v, body))
or_else-some verb none later h = inr h
or_else-some verb (some b) later h = inl (ground arith, ground arith)

body_after-some :
    (o : Option Str) {body : Str}
    → body_after o ≡ some body
    → (t : Str) × (o ≡ some t) × (body ≡ (span_blank t).1)
unfolding body_after
body_after-some none h = cc
body_after-some (some t) {body} h = elim (Bool-cases (blank_next t)) [
  | inl next ↦
      let g : some (span_blank t).1 ≡ some body = rw (next, body_after) at h in
      (t, refl, ground arith)
  | inr other ↦ let bad = rw (other, body_after) at h in cc bad
]

-- The body is an end of the text, after the verb.
body-end :
    (verb s : Str) {body : Str}
    → body_after (after_prefix verb s) ≡ some body
    → (front : Str) × (front ++ body ≡ s)
body-end verb s {body} h =
    let (t, e, f) = body_after-some (after_prefix verb s) h in
    (
      verb ++ (span_blank t).0,
      rw f (
          append_assoc verb (span_blank t).0 (span_blank t).1
          ∙ ap (λ z. verb ++ z) (span_blank-whole t)
          ∙ after_prefix-whole verb s e),
    )

verb_here :
    (verb s : Str) (later : Option (Str × Str)) {v body : Str}
    → or_else verb (body_after (after_prefix verb s)) later ≡ some (v, body)
    → ((v ≡ verb) × ((front : Str) × (front ++ body ≡ s))) ⊎ (later ≡ some (v, body))
verb_here verb s later h = elim (or_else-some verb (body_after (after_prefix verb s)) later h) [
  | inl m ↦ inl (m.0, body-end verb s m.1)
  | inr other ↦ inr other
]

pub match_verb-some :
    (s : Str) {verb body : Str}
    → match_verb verbs s ≡ some (verb, body)
    → IsVerb verb × ((front : Str) × (front ++ body ≡ s))
unfolding match_verb verbs
match_verb-some s {verb} {body} h =
    elim (verb_here (lit "linux") s (match_verb (lit "linuxefi" ∷ lit "append" ∷ []) s) h) [
      | inl m ↦ (inl m.0, m.1)
      | inr later ↦ elim (verb_here (lit "linuxefi") s (match_verb (lit "append" ∷ []) s) later) [
        | inl m ↦ (inr (inl m.0), m.1)
        | inr last ↦ elim (verb_here (lit "append") s none last) [
          | inl m ↦ (inr (inr m.0), m.1)
          | inr never ↦ cc never
        ]
      ]
    ]

-- A line that starts with one of the verbs and a space is matched at this verb.
match_verb-again :
    (verb nb : Str)
    → IsVerb verb
    → match_verb verbs (verb ++ 32 ∷ nb) ≡ some (verb, (span_blank (32 ∷ nb)).1)
unfolding match_verb verbs lit after_prefix body_after blank_next is_blank
match_verb-again verb nb (inl e) = rw e refl
match_verb-again verb nb (inr (inl e)) = rw e refl
match_verb-again verb nb (inr (inr e)) = rw e refl

verb-blank_next : (verb nb : Str) → IsVerb verb → blank_next (verb ++ 32 ∷ nb) ≡ false
unfolding lit blank_next is_blank
verb-blank_next verb nb (inl e) = rw e refl
verb-blank_next verb nb (inr (inl e)) = rw e refl
verb-blank_next verb nb (inr (inr e)) = rw e refl

-- The word is still found after the blanks before it.
span_blank-contains :
    (s : Str)
    → contains s (lit "autoinstall") ≡ true
    → contains (span_blank s).1 (lit "autoinstall") ≡ true
unfolding span_blank contains has_prefix lit is_blank
span_blank-contains [] h = h
span_blank-contains (c ∷ s) h = elim (Bool-cases (is_blank c)) [
  | inl blank ↦ rw blank (span_blank-contains s (ground arith))
  | inr other ↦ rw other h
]

inject-contains :
    (body args p : Str)
    → contains args p ≡ true
    → contains (inject_before_separator body args) p ≡ true
unfolding inject_before_separator contains
inject-contains body args p h = injected (cut_separator body)
  where
    injected : (o : Option (Str × Str)) → contains (inject_at body args o) p ≡ true
    injected none =
        contains-append_right body (32 ∷ args) p (contains-append_right (32 ∷ []) args p h)
    injected (some (before, after)) =
        contains-append_right before (32 ∷ (args ++ after)) p
          (contains-append_right (32 ∷ []) (args ++ after) p (contains-append_left args after p h))

-- A line that is rewritten, or was before.
module _ (args line verb body : Str)
    (found : match_verb verbs (span_blank line).1 ≡ some (verb, body)) where
  abbrev pub rewritten : Str
  rewritten = (span_blank line).0 ++ verb ++ 32 ∷ inject_before_separator body args

  pub patch_line-done : contains body (lit "autoinstall") ≡ true → patch_line args line ≡ line
  unfolding patch_line
  patch_line-done h = rw (found, rewrite) (rw h refl)

  pub patch_line-new : contains body (lit "autoinstall") ≡ false → patch_line args line ≡ rewritten
  unfolding patch_line
  patch_line-new h = rw (found, rewrite) (rw h refl)

pub patch_line-none :
    (args line : Str) → match_verb verbs (span_blank line).1 ≡ none → patch_line args line ≡ line
unfolding patch_line
patch_line-none args line h = rw (h, rewrite) refl

patch_line-patched :
    (args line verb nb : Str)
    → IsVerb verb
    → contains nb (lit "autoinstall") ≡ true
    → patch_line args ((span_blank line).0 ++ verb ++ 32 ∷ nb)
      ≡ (span_blank line).0 ++ verb ++ 32 ∷ nb
patch_line-patched args line verb nb v h =
    let whole = (span_blank line).0 ++ verb ++ 32 ∷ nb in
    let parts =
      ap span_blank (append_assoc (span_blank line).0 verb (32 ∷ nb))
      ∙ span_blank-again line (verb ++ 32 ∷ nb) (verb-blank_next verb nb v) in
    patch_line-done args whole verb (span_blank (32 ∷ nb)).1
      (ap (λ z. match_verb verbs z.1) parts ∙ match_verb-again verb nb v)
      (span_blank-contains (32 ∷ nb) (contains-append_right (32 ∷ []) nb (lit "autoinstall") h))

pub patch_line-twice :
    (args line : Str)
    → contains args (lit "autoinstall") ≡ true
    → patch_line args (patch_line args line) ≡ patch_line args line
patch_line-twice args line h = elim (Option-cases (match_verb verbs (span_blank line).1)) [
  | inl e ↦ ap (patch_line args) (patch_line-none args line e)
  | inr (m, e) ↦ again m e
]
  where
    again :
        (m : Str × Str)
        → match_verb verbs (span_blank line).1 ≡ some m
        → patch_line args (patch_line args line) ≡ patch_line args line
    again (verb, body) e = elim (Bool-cases (contains body (lit "autoinstall"))) [
      | inl done ↦ ap (patch_line args) (patch_line-done args line verb body e done)
      | inr new ↦
          let first = patch_line-new args line verb body e new in
          ap (patch_line args) first
          ∙ patch_line-patched args line verb (inject_before_separator body args)
              (match_verb-some (span_blank line).1 e).0
              (inject-contains body args (lit "autoinstall") h)
          ∙ sym first
    ]

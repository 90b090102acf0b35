-- ===== src/Kickstart/Cmdline/Separator.antt =====
-- Where injectBeforeSeparator puts the arguments.
use proxclt.Base.{
  prefixed, pieces, prefixed-some, prefixed-cons, ℕ, Str, ◌≡◌, refl, arith, ◌==◌, has_byte,
  Bool-cases, true, false, Option, none, some, [], ◌∷◌, ◌++◌, inl, inr, ap, sym, ◌∙◌,
}
use proxclt.Kickstart.Cmdline.{
  is_blank, blank_or_end, dashes, is_separator, cut_separator, inject_before_separator,
}

dashes-first : (v : ℕ) (r : Str) → is_blank v ≡ true → dashes (v ∷ r) ≡ false
unfolding dashes is_blank
dashes-first v [] h = refl
dashes-first v (a ∷ []) h = refl
dashes-first v (a ∷ b ∷ r) h = ground arith

dashes-second : (x v : ℕ) (r : Str) → is_blank v ≡ true → dashes (x ∷ v ∷ r) ≡ false
unfolding dashes is_blank
dashes-second x v [] h = refl
dashes-second x v (a ∷ r) h = ground arith

-- What follows a blank does not decide whether a separator stands before it.
dashes-blank :
    (p : Str) (v w : ℕ) (r t : Str)
    → is_blank v ≡ true
    → is_blank w ≡ true
    → dashes (p ++ v ∷ r) ≡ dashes (p ++ w ∷ t)
unfolding dashes blank_or_end is_blank
dashes-blank [] v w r t hv hw = dashes-first v r hv ∙ sym (dashes-first w t hw)
dashes-blank (x ∷ []) v w r t hv hw = dashes-second x v r hv ∙ sym (dashes-second x w t hw)
dashes-blank (x ∷ y ∷ []) v w r t hv hw = ground arith
dashes-blank (x ∷ y ∷ z ∷ []) v w r t hv hw = ground arith
dashes-blank (x ∷ y ∷ z ∷ u ∷ p) v w r t hv hw = refl

is_separator-blank :
    (c : ℕ) (p : Str) (v w : ℕ) (r t : Str)
    → is_blank v ≡ true
    → is_blank w ≡ true
    → is_separator (c ∷ (p ++ v ∷ r)) ≡ is_separator (c ∷ (p ++ w ∷ t))
unfolding is_separator
is_separator-blank c p v w r t hv hw = rw (dashes-blank p v w r t hv hw)

-- The text is cut before the blank that starts a separator.
pub record CutAt (body before after : Str) : Type 0 where
  pub whole : before ++ after ≡ body
  pub target : is_separator after ≡ true

separator-ne-nil : ¬ (is_separator [] ≡ true)
unfolding is_separator
separator-ne-nil h = cc

pub cut_separator-CutAt :
    (body : Str) {before after : Str}
    → cut_separator body ≡ some (before, after)
    → CutAt body before after
unfolding cut_separator
cut_separator-CutAt [] h = cc
cut_separator-CutAt (c ∷ s) {before} {after} h = elim (Bool-cases (is_separator (c ∷ s))) [
  | inl found ↦
      let g : pieces [] (c ∷ s) ≡ some (before, after) = rw (found, cut_separator) at h in
      let eb : before ≡ [] = ground arith in
      let ea : after ≡ c ∷ s = ground arith in record { whole = rw (eb, ea); target = rw ea found }
  | inr later ↦
      let g : prefixed c (cut_separator s) ≡ some (before, after) =
        rw (later, cut_separator) at h in
      let (t, e, f) = prefixed-some c (cut_separator s) g in
      let tail = cut_separator-CutAt s f in
      record { whole = rw e (ap (λ z. c ∷ z) tail.whole); target = tail.target }
]

dashes-other : (a : ℕ) (s : Str) → (a == b'-') ≡ false → dashes (a ∷ s) ≡ false
unfolding dashes
dashes-other a [] h = refl
dashes-other a (x ∷ []) h = refl
dashes-other a (x ∷ y ∷ s) h = ground arith

not_separator : (c : ℕ) (s : Str) → dashes s ≡ false → is_separator (c ∷ s) ≡ false
unfolding is_separator
not_separator c s h = ground arith

separator-blank : (w : ℕ) (t : Str) → is_separator (w ∷ t) ≡ true → is_blank w ≡ true
unfolding is_separator
separator-blank w t h = ground arith

abbrev prepend_all : Str → Option (Str × Str) → Option (Str × Str)
prepend_all p none = none
prepend_all p (some (a, b)) = some (p ++ a, b)

prefixed-all :
    (c : ℕ) (p : Str) (o : Option (Str × Str))
    → prefixed c (prepend_all p o) ≡ prepend_all (c ∷ p) o
prefixed-all c p none = refl
prefixed-all c p (some (a, b)) = refl

prepend_all-nil : (o : Option (Str × Str)) → o ≡ prepend_all [] o
prepend_all-nil none = refl
prepend_all-nil (some (a, b)) = refl

-- Where a text is cut at a blank, any other continuation with a blank is looked at from there on.
module _ (w : ℕ) (t : Str) (blank_w : is_blank w ≡ true) (v : ℕ) (r : Str)
    (blank_v : is_blank v ≡ true) where
  cut_separator-prefix :
      (p : Str)
      → cut_separator (p ++ w ∷ t) ≡ some (p, w ∷ t)
      → cut_separator (p ++ v ∷ r) ≡ prepend_all p (cut_separator (v ∷ r))
  unfolding cut_separator
  cut_separator-prefix [] h = prepend_all-nil (cut_separator (v ∷ r))
  cut_separator-prefix (x ∷ p) h = elim (Bool-cases (is_separator (x ∷ (p ++ w ∷ t)))) [
    | inl found ↦
        let g : pieces [] (x ∷ (p ++ w ∷ t)) ≡ some (x ∷ p, w ∷ t) =
          rw (found, cut_separator) at h in
        absurd (ground arith)
    | inr later ↦
        let g : prefixed x (cut_separator (p ++ w ∷ t)) ≡ some (x ∷ p, w ∷ t) =
          rw (later, cut_separator) at h in
        let f = prefixed-cons x (cut_separator (p ++ w ∷ t)) p (w ∷ t) g in
        let same : is_separator (x ∷ (p ++ v ∷ r)) ≡ false =
          is_separator-blank x p v w r t blank_v blank_w ∙ later in
        rw (same, cut_separator)
          (rw (cut_separator-prefix p f) (prefixed-all x p (cut_separator (v ∷ r))))
  ]

-- Arguments without a dash do not hold a separator, whatever blank follows.
module _ (w : ℕ) (t : Str) (blank_w : is_blank w ≡ true) where
  dashes-no_dash : (args : Str) → has_byte b'-' args ≡ false → dashes (args ++ w ∷ t) ≡ false
  unfolding has_byte
  dashes-no_dash [] h = dashes-first w t blank_w
  dashes-no_dash (a ∷ args) h = dashes-other a (args ++ w ∷ t) (ground arith)

  cut_separator-args :
      (args : Str)
      → has_byte b'-' args ≡ false
      → is_separator (w ∷ t) ≡ true
      → cut_separator (args ++ w ∷ t) ≡ some (args, w ∷ t)
  unfolding has_byte cut_separator
  cut_separator-args [] h sep = rw (sep, cut_separator)
  cut_separator-args (a ∷ args) h sep =
      let none_here : is_separator (a ∷ (args ++ w ∷ t)) ≡ false =
        not_separator a (args ++ w ∷ t) (dashes-no_dash args (ground arith)) in
      rw (none_here, cut_separator) (rw (cut_separator-args args (ground arith) sep) refl)

live_part :
    (args before after : Str)
    → has_byte b'-' args ≡ false
    → is_separator after ≡ true
    → cut_separator (before ++ after) ≡ some (before, after)
    → cut_separator (before ++ 32 ∷ (args ++ after)) ≡ some (before ++ 32 ∷ args, after)
unfolding is_blank cut_separator
live_part args before [] h sep e = absurd (separator-ne-nil sep)
live_part args before (w ∷ t) h sep e =
    let blank = separator-blank w t sep in
    let space : is_separator (32 ∷ (args ++ w ∷ t)) ≡ false =
      not_separator 32 (args ++ w ∷ t) (dashes-no_dash w t blank args h) in
    let added : cut_separator (32 ∷ (args ++ w ∷ t)) ≡ some (32 ∷ args, w ∷ t) =
      rw (space, cut_separator) (rw (cut_separator-args w t blank args h sep) refl) in
    cut_separator-prefix w t blank 32 (args ++ w ∷ t) refl before e ∙ ap (prepend_all before) added

-- Where the text of a kernel line has a separator, the arguments, which have no dash, are added at
-- the end of the part before the first separator: this part is the old one followed by a space and the
-- arguments, and the part from the separator on is unchanged.
pub inject_before_separator-live :
    (body args before after : Str)
    → has_byte b'-' args ≡ false
    → cut_separator body ≡ some (before, after)
    → (before ++ after ≡ body)
      × (cut_separator (inject_before_separator body args) ≡ some (before ++ 32 ∷ args, after))
unfolding inject_before_separator
inject_before_separator-live body args before after h e =
    let at = cut_separator-CutAt body e in
    (at.whole, rw e (live_part args before after h at.target (ap cut_separator at.whole ∙ e)))

-- ===== src/Trace/Lines.antt =====
-- Texts made of whole lines: how the reader and the writer of pkg/trace find the lines again.
use mathlib.Core.List.{reverse, reverse-append, reverse-cons, reverse-reverse}
use proxclt.Base.{
  ==_iff, Str, is_empty, false, List, [], ◌∷◌, ◌++◌, All, All-append, append_assoc, append-nil, ◌≡◌,
  ◌≢◌, ◌⊎◌, inl, inr, refl, ap, sym, ◌∙◌, arith,
}
use proxclt.Trace.Writer.{drop_newline, until_newline, last_line}
use proxclt.Trace.Reader.{lines_from}

abbrev pub IsPlain : Str → Type 0
IsPlain b = All (λ x. x ≢ 10) b

-- A line holds a byte at least and no newline.
pub record IsLine (b : Str) : Type 0 where
  pub nonempty : is_empty b ≡ false
  pub plain : IsPlain b

-- The lines, each with its newline.
abbrev pub render : List Str → Str
render [] = []
render (b ∷ rest) = b ++ 10 ∷ render rest

pub render-append : (xs ys : List Str) → render (xs ++ ys) ≡ render xs ++ render ys
render-append [] ys = refl
render-append (b ∷ rest) ys = simp (render-append rest ys, append_assoc)

lines_from-line :
    (word b rest : Str)
    → All (λ x. x ≢ 10) b
    → lines_from word (b ++ 10 ∷ rest) ≡ (word ++ b) ∷ lines_from [] rest
unfolding lines_from
lines_from-line word [] rest p = rw append-nil
lines_from-line word (a ∷ b) rest p = ground (
  arith,
  p.0,
  ==_iff a 10,
  lines_from-line (word ++ a ∷ []) b rest p.1,
  append_assoc word (a ∷ []) b,
)

-- Splitting what was rendered gives the lines back.
pub lines-render : (bs : List Str) → All IsPlain bs → lines_from [] (render bs) ≡ bs
unfolding lines_from is_empty
lines-render [] h = refl
lines-render (b ∷ bs) h =
    lines_from-line [] b (render bs) h.0 ∙ ap (λ r. b ∷ r) (lines-render bs h.1)

-- A text that is empty or ends in a newline.
abbrev pub EndsLine : Str → Type 0
EndsLine pre = (pre ≡ []) ⊎ ((p : Str) × (pre ≡ p ++ 10 ∷ []))

until_newline-stop :
    (b rest : Str)
    → All (λ x. x ≢ 10) b
    → (rest ≡ []) ⊎ ((p : Str) × (rest ≡ 10 ∷ p))
    → until_newline (b ++ rest) ≡ b
unfolding until_newline
until_newline-stop [] rest h (inl e) = rw e
until_newline-stop [] rest h (inr (p, e)) = rw e
until_newline-stop (a ∷ b) rest h e =
    ground (arith, h.0, ==_iff a 10, until_newline-stop b rest h.1 e)

All-reverse : (b : Str) → All (λ x. x ≢ 10) b → All (λ x. x ≢ 10) (reverse b)
All-reverse [] h = tt
All-reverse (a ∷ b) h =
    rw reverse-cons (All-append (λ x. x ≢ 10) (reverse b) (a ∷ []) (All-reverse b h.1) (h.0, tt))

reverse-EndsLine :
    (pre : Str) → EndsLine pre → (reverse pre ≡ []) ⊎ ((p : Str) × (reverse pre ≡ 10 ∷ p))
reverse-EndsLine pre (inl e) = inl (rw e)
reverse-EndsLine pre (inr (p, e)) = inr (reverse p, ap reverse e ∙ reverse-append p (10 ∷ []))

-- The last line of a text that ends in a newline is found.
last_line-found :
    (pre b : Str) → EndsLine pre → All (λ x. x ≢ 10) b → last_line (pre ++ (b ++ 10 ∷ [])) ≡ b
unfolding last_line drop_newline
last_line-found pre b e h =
    rw (reverse-append, reverse-append)
      (rw (until_newline-stop (reverse b) (reverse pre) (All-reverse b h) (reverse-EndsLine pre e))
        (reverse-reverse b))

abbrev pub last_of : Str → List Str → Str
last_of b [] = b
last_of b (d ∷ rest) = last_of d rest

pub last_line-render :
    (pre b : Str) (bs : List Str)
    → EndsLine pre
    → All IsLine (b ∷ bs)
    → last_line (pre ++ render (b ∷ bs)) ≡ last_of b bs
last_line-render pre b [] e h = last_line-found pre b e h.0.plain
last_line-render pre b (d ∷ bs) e h =
    ap last_line (simp append_assoc)
    ∙ last_line-render (pre ++ (b ++ 10 ∷ [])) d bs
        (inr (pre ++ b, sym (append_assoc pre b (10 ∷ [])))) h.1

-- After a blank line at the end no last line is found.
pub last_line-blank : (s : Str) → last_line (s ++ (10 ∷ 10 ∷ [])) ≡ []
unfolding last_line drop_newline until_newline
last_line-blank s = rw (reverse-append)

pub All-plain : (bs : List Str) → All IsLine bs → All IsPlain bs
All-plain [] h = tt
All-plain (b ∷ bs) h = (h.0.plain, All-plain bs h.1)

-- A text of one line or more ends in a newline.
pub render-EndsLine : (b : Str) (bs : List Str) → (p : Str) × (render (b ∷ bs) ≡ p ++ 10 ∷ [])
render-EndsLine b [] = (b, refl)
render-EndsLine b (d ∷ bs) =
    let (p, e) = render-EndsLine d bs in
    (b ++ 10 ∷ p, ap (λ (z : Str). b ++ 10 ∷ z) e ∙ sym (append_assoc b (10 ∷ p) (10 ∷ [])))

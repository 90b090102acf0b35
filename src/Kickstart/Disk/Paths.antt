-- ===== src/Kickstart/Disk/Paths.antt =====
-- Paths and files of Kickstart.Disk: the path that a directory and a name make, and what a file is
-- after a write, a removal, or the removal of a directory.
use mathlib.Core.List.{reverse, reverse-cons, append_cancel_left}
use proxclt.Base.{
  Str, lit, str_eq, str_eq_iff, str_eq_refl, is_empty, split, split-snoc, split-last, has_byte,
  ◌==◌, join, Bool-cases, Bool, true, false, not, ◌&&◌, none, some, List, [], ◌∷◌, ◌++◌,
  append_assoc, ◌≡◌, ◌≢◌, inl, inr, refl, sym, ap, ◌∙◌, arith,
}
use proxclt.Config.Model.{Dict, lookup}
use proxclt.Kickstart.Disk.{
  File, join_path, clean_path, clean_steps, clean_step, is_rooted, rooted_text, drop_file, put_file,
  drop_under, is_under,
}

pub lookup-drop_file_same :
    (path : Str) (files : Dict File) → lookup path (drop_file path files) ≡ none
unfolding lookup drop_file
lookup-drop_file_same path [] = refl
lookup-drop_file_same path ((p, f) ∷ rest) =
    let ih = lookup-drop_file_same path rest in
    elim (Bool-cases (str_eq p path)) [ inl h ↦ rw h ih | inr h ↦ rw (h, h) ih ]

pub lookup-drop_file :
    (path other : Str) (files : Dict File)
    → path ≢ other
    → lookup path (drop_file other files) ≡ lookup path files
unfolding lookup drop_file
lookup-drop_file path other [] ne = refl
lookup-drop_file path other ((p, f) ∷ rest) ne =
    let ih = lookup-drop_file path other rest ne in
    elim (Bool-cases (str_eq p other)) [
      | inl h ↦ ground (arith, ih, h, str_eq_iff p other, str_eq_iff p path)
      | inr h ↦ ground (arith, ih, h)
    ]

pub lookup-put_file_same :
    (path : Str) (f : File) (files : Dict File) → lookup path (put_file path f files) ≡ some f
unfolding lookup put_file
lookup-put_file_same path f files = rw (str_eq_refl path) refl

pub lookup-put_file :
    (path other : Str) (f : File) (files : Dict File)
    → path ≢ other
    → lookup path (put_file other f files) ≡ lookup path files
unfolding lookup put_file
lookup-put_file path other f files ne =
    ground (arith, lookup-drop_file path other files ne, str_eq_iff other path)

pub lookup-drop_under :
    (dir path : Str) (files : Dict File)
    → is_under dir path ≡ true
    → lookup path (drop_under dir files) ≡ none
unfolding lookup drop_under
lookup-drop_under dir path [] h = refl
lookup-drop_under dir path ((p, f) ∷ rest) h =
    let ih = lookup-drop_under dir path rest h in
    elim (Bool-cases (is_under dir p)) [
      | inl u ↦ rw u ih
      | inr u ↦ ground (arith, ih, u, h, str_eq_iff p path)
    ]

-- A name that stays one element of a path.
unfoldable pub is_name : Str → Bool
unfolding lit str_eq is_empty has_byte
is_name s =
    not (has_byte 47 s) && not (is_empty s) && not (str_eq s (lit ".")) && not (str_eq s (lit ".."))

clean_step-name :
    (rooted : Bool) (up : List Str) (name : Str)
    → is_name name ≡ true
    → clean_step rooted up name ≡ name ∷ up
unfolding clean_step is_name
clean_step-name rooted up name h = ground arith

clean_steps-append :
    (rooted : Bool) (up ps : List Str) (name : Str)
    → is_name name ≡ true
    → clean_steps rooted up (ps ++ name ∷ []) ≡ name ∷ clean_steps rooted up ps
unfolding clean_steps
clean_steps-append rooted up [] name h = clean_step-name rooted up name h
clean_steps-append rooted up (p ∷ ps) name h =
    clean_steps-append rooted (clean_step rooted up p) ps name h

-- The text before the last element, whatever that is.
join-last :
    (ps : List Str)
    → (base : Str) × ((name : Str) → join (lit "/") (ps ++ name ∷ []) ≡ base ++ name)
unfolding join lit
join-last [] = ([], λ name. refl)
join-last (p ∷ []) = (p ++ lit "/", λ name. refl)
join-last (p ∷ q ∷ ps) =
    let (base, h) = join-last (q ∷ ps) in
    (
      p ++ lit "/" ++ base,
      λ name. ap (λ z. p ++ lit "/" ++ z) (h name) ∙ sym (append_assoc (p ++ lit "/") base name),
    )

is_name-whole : (name : Str) → is_name name ≡ true → has_byte 47 name ≡ false
unfolding is_name
is_name-whole name n = ground arith

rooted_base : Bool → Str → Str
unfolding lit
rooted_base true base = lit "/" ++ base
rooted_base false base = base

join_nil : (base name : Str) → is_empty name ≡ false → is_empty (base ++ name) ≡ false
unfolding is_empty
join_nil [] name h = h
join_nil (c ∷ base) name h = refl

rooted_text-base :
    (rooted : Bool) (base name : Str)
    → is_name name ≡ true
    → rooted_text rooted (base ++ name) ≡ rooted_base rooted base ++ name
unfolding rooted_text is_name rooted_base lit
rooted_text-base true base name n = refl
rooted_text-base false base name n =
    let e : is_empty name ≡ false = ground arith in rw (join_nil base name e) refl

is_rooted-name : (name : Str) → has_byte 47 name ≡ false → is_rooted name ≡ false
unfolding is_rooted has_byte
is_rooted-name [] h = refl
is_rooted-name (c ∷ s) h = ground arith

clean_path-name : (name : Str) → is_name name ≡ true → clean_path name ≡ name
unfolding clean_path lit rooted_text clean_steps is_name join
clean_path-name name n =
    let plain = is_name-whole name n in
    let full : is_empty name ≡ false = ground arith in
    rw (is_rooted-name name plain, split-last 47 name plain, clean_step-name false [] name n, full)
      refl

-- A name in a directory: the path is a text that the directory determines, then the name.
pub join_path-name :
    (dir : Str)
    → (base : Str) × ((name : Str) → is_name name ≡ true → join_path dir name ≡ base ++ name)
unfolding join_path clean_path is_rooted rooted_text is_empty lit
join_path-name [] = ([], λ name n. clean_path-name name n)
join_path-name (c ∷ dir) =
    let rooted = c == 47 in
    let up = clean_steps rooted [] (split 47 (c ∷ dir)) in
    let (base, h) = join-last (reverse up) in
    let e : (name : Str)
        → is_name name ≡ true
        → join (lit "/") (reverse (clean_steps rooted [] (split 47 (c ∷ dir ++ 47 ∷ name))))
          ≡ base ++ name =
      λ name n.
        ap (λ ps. join (lit "/") (reverse (clean_steps rooted [] ps)))
          (split-snoc 47 (c ∷ dir) name (is_name-whole name n))
        ∙ ap (λ u. join (lit "/") (reverse u))
            (clean_steps-append rooted [] (split 47 (c ∷ dir)) name n)
        ∙ ap (join (lit "/")) (reverse-cons name up)
        ∙ h name in
    (
      rooted_base rooted base,
      λ name n. ap (rooted_text rooted) (e name n) ∙ rooted_text-base rooted base name n,
    )

pub join_path-injective :
    (dir : Str) {a b : Str}
    → is_name a ≡ true
    → is_name b ≡ true
    → join_path dir a ≡ join_path dir b
    → a ≡ b
join_path-injective dir {a} {b} ha hb e =
    let (base, h) = join_path-name dir in append_cancel_left base a b (sym (h a ha) ∙ e ∙ h b hb)

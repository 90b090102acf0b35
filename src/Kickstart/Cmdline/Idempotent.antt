-- ===== src/Kickstart/Cmdline/Idempotent.antt =====
-- patchKernelCmdline changes a configuration that it has patched no more.
use proxclt.Base.{
  Str, lit, contains, split, join, ◌≡◌, ◌≢◌, refl, ap, ◌∙◌, has_byte, Bool-cases, true, some,
  Option-cases, List, [], ◌∷◌, ◌++◌, map, inl, inr, All, Without, Without-append, Without-parts,
  split-Without, split-ne-nil, split-join,
}
use proxclt.Kickstart.Cmdline.{
  span_blank, match_verb, verbs, patch_line, patch_kernel_cmdline, cut_separator, inject_at,
  inject_before_separator,
}
use proxclt.Kickstart.Cmdline.Separator.{cut_separator-CutAt}
use proxclt.Kickstart.Cmdline.Patched.{
  IsVerb, span_blank-whole, match_verb-some, patch_line-none, patch_line-done, patch_line-new,
  patch_line-twice,
}

verb-Without : (verb : Str) → IsVerb verb → Without 10 verb
unfolding lit has_byte
verb-Without verb (inl e) = rw e refl
verb-Without verb (inr (inl e)) = rw e refl
verb-Without verb (inr (inr e)) = rw e refl

space-Without : Without 10 (32 ∷ [])
unfolding has_byte
space-Without = refl

inject-Without :
    (body args : Str)
    → Without 10 args
    → Without 10 body
    → Without 10 (inject_before_separator body args)
unfolding inject_before_separator
inject-Without body args ha hb = elim (Option-cases (cut_separator body)) [
  | inl e ↦
      rw (e, inject_at)
        (Without-append 10 body (32 ∷ args) hb (Without-append 10 (32 ∷ []) args space-Without ha))
  | inr (m, e) ↦ at_cut m e
]
  where
    at_cut :
        (m : Str × Str)
        → cut_separator body ≡ some m
        → Without 10 (inject_at body args (cut_separator body))
    at_cut (before, after) e =
        let whole = (cut_separator-CutAt body e).whole in
        let parts = Without-parts 10 before after (ap (has_byte 10) whole ∙ hb) in
        let tail =
          Without-append 10 (32 ∷ args) after (Without-append 10 (32 ∷ []) args space-Without ha)
            parts.1 in
        rw (e, inject_at) (Without-append 10 before (32 ∷ (args ++ after)) parts.0 tail)

patch_line-Without :
    (args line : Str) → Without 10 args → Without 10 line → Without 10 (patch_line args line)
patch_line-Without args line ha hl = elim (Option-cases (match_verb verbs (span_blank line).1)) [
  | inl e ↦ rw (patch_line-none args line e) hl
  | inr (m, e) ↦ at_verb m e
]
  where
    at_verb :
        (m : Str × Str)
        → match_verb verbs (span_blank line).1 ≡ some m
        → Without 10 (patch_line args line)
    at_verb (verb, body) e = elim (Bool-cases (contains body (lit "autoinstall"))) [
      | inl done ↦ rw (patch_line-done args line verb body e done) hl
      | inr new ↦
          let (v, ending) = match_verb-some (span_blank line).1 e in
          let (front, whole) = ending in
          let parts =
            Without-parts 10 (span_blank line).0 (span_blank line).1
              (ap (has_byte 10) (span_blank-whole line) ∙ hl) in
          let ends = Without-parts 10 front body (ap (has_byte 10) whole ∙ parts.1) in
          let start = Without-append 10 (span_blank line).0 verb parts.0 (verb-Without verb v) in
          let tail =
            Without-append 10 (32 ∷ []) (inject_before_separator body args) space-Without
              (inject-Without body args ha ends.1) in
          rw (patch_line-new args line verb body e new) (
            Without-append 10 ((span_blank line).0 ++ verb) (32 ∷ inject_before_separator body args)
              start tail)
    ]

map-patch-Without :
    (args : Str) (lines : List Str)
    → Without 10 args
    → All (Without 10) lines
    → All (Without 10) (map (patch_line args) lines)
map-patch-Without args [] ha h = tt
map-patch-Without args (l ∷ r) ha h =
    (patch_line-Without args l ha h.0, map-patch-Without args r ha h.1)

map-patch-twice :
    (args : Str) (lines : List Str)
    → contains args (lit "autoinstall") ≡ true
    → map (patch_line args) (map (patch_line args) lines) ≡ map (patch_line args) lines
map-patch-twice args [] h = refl
map-patch-twice args (l ∷ r) h = rw (patch_line-twice args l h, map-patch-twice args r h) refl

map-ne-nil : (args : Str) (lines : List Str) → lines ≢ [] → map (patch_line args) lines ≢ []
map-ne-nil args [] h e = h refl
map-ne-nil args (l ∷ r) h e = cc e

-- For arguments that hold the word autoinstall and no line break, patching a configuration that was
-- patched with them gives it back unchanged.
pub patch_kernel_cmdline-twice :
    (args text : Str)
    → contains args (lit "autoinstall") ≡ true
    → Without 10 args
    → patch_kernel_cmdline args (patch_kernel_cmdline args text) ≡ patch_kernel_cmdline args text
unfolding patch_kernel_cmdline
patch_kernel_cmdline-twice args text h ha =
    let lines = map (patch_line args) (split 10 text) in
    let again =
      split-join 10 lines (map-ne-nil args (split 10 text) (split-ne-nil 10 text))
        (map-patch-Without args (split 10 text) ha (split-Without 10 text)) in
    ap (λ z. join (10 ∷ []) (map (patch_line args) z)) again
    ∙ ap (join (10 ∷ [])) (map-patch-twice args (split 10 text) h)

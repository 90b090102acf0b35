-- ===== src/Kickstart/Cmdline.antt =====
-- patchKernelCmdline and injectBeforeSeparator of pkg/kickstart/ubuntu_iso_builder.go. The two
-- regular expressions are written out as scans of the bytes of a line.
pub mod Separator
pub mod Patched
pub mod Idempotent
use proxclt.Base.{
  prefixed, ℕ, zero, suc, ◌+◌, Str, lit, contains, has_prefix, split, join, ◌==◌, if◌then◌else◌,
  Bool, true, false, ◌&&◌, ◌||◌, Option, none, some, List, [], ◌∷◌, ◌++◌, map,
}

-- \s
unfoldable pub is_blank : ℕ → Bool
is_blank c = c == 32 || c == 9 || c == 10 || c == 12 || c == 13

-- (\s|$), where the text that is left begins
unfoldable pub blank_or_end : Str → Bool
unfolding is_blank
blank_or_end [] = true
blank_or_end (c ∷ s) = is_blank c

-- ---(\s|$)
unfoldable pub dashes : Str → Bool
unfolding blank_or_end
dashes (a ∷ b ∷ c ∷ s) = a == b'-' && b == b'-' && c == b'-' && blank_or_end s
dashes _ = false

-- `(\s)---(\s|$)` matches where the text begins.
unfoldable pub is_separator : Str → Bool
unfolding is_blank dashes
is_separator [] = false
is_separator (c ∷ s) = is_blank c && dashes s

-- body[:loc[0]] and body[loc[0]:], for the first match
unfoldable pub cut_separator : Str → Option (Str × Str)
unfolding is_separator
cut_separator [] = none
cut_separator (c ∷ s) = elim (is_separator (c ∷ s)) [
  | true ↦ some ([], c ∷ s)
  | false ↦ prefixed c (cut_separator s)
]

inject_at : Str → Str → Option (Str × Str) → Str
inject_at body args none = body ++ 32 ∷ args
inject_at body args (some (before, after)) = before ++ 32 ∷ (args ++ after)

unfoldable pub inject_before_separator : Str → Str → Str
unfolding inject_at
inject_before_separator body args = inject_at body args (cut_separator body)

-- \s*, or the \s+ after its first byte: what it takes, and what is left
unfoldable pub span_blank : Str → Str × Str
unfolding is_blank
span_blank [] = ([], [])
span_blank (c ∷ s) =
    let (taken, left) = span_blank s in if is_blank c then (c ∷ taken, left) else ([], c ∷ s)

-- A byte of \s follows.
unfoldable pub blank_next : Str → Bool
unfolding is_blank
blank_next [] = false
blank_next (c ∷ s) = is_blank c

-- The text after a prefix that it has.
unfoldable pub after_prefix : Str → Str → Option Str
after_prefix [] s = some s
after_prefix (b ∷ p) [] = none
after_prefix (b ∷ p) (a ∷ s) = if a == b then after_prefix p s else none

body_after : Option Str → Option Str
body_after none = none
body_after (some s) = if blank_next s then some (span_blank s).1 else none

abbrev or_else : Str → Option Str → Option (Str × Str) → Option (Str × Str)
or_else verb (some body) later = some (verb, body)
or_else verb none later = later

-- (linux|linuxefi|append)\s+(.*)$
unfoldable pub match_verb : List Str → Str → Option (Str × Str)
unfolding body_after blank_next span_blank after_prefix
match_verb [] s = none
match_verb (verb ∷ r) s = or_else verb (body_after (after_prefix verb s)) (match_verb r s)

unfoldable pub verbs : List Str
unfolding lit
verbs = lit "linux" ∷ lit "linuxefi" ∷ lit "append" ∷ []

rewrite : Str → Str → Str → Option (Str × Str) → Str
rewrite args line indent none = line
rewrite args line indent (some (verb, body)) =
    if contains body (lit "autoinstall")
    then line
    else indent ++ verb ++ 32 ∷ inject_before_separator body args

-- The body of the loop over the lines.
unfoldable pub patch_line : Str → Str → Str
unfolding rewrite
patch_line args line =
    let (indent, left) = span_blank line in rewrite args line indent (match_verb verbs left)

-- The text that is written, made of the text that is read.
unfoldable pub patch_kernel_cmdline : Str → Str → Str
unfolding patch_line
patch_kernel_cmdline args text = join (10 ∷ []) (map (patch_line args) (split 10 text))

-- ===== src/Config/Placeholders.antt =====
-- pkg/config/resolver.go: the placeholders ${kind:spec|filter} in one string.
pub mod Expand
pub mod Plain
pub mod Printed
use mathlib.Core.List.{reverse}
use proxclt.Base.{
  ℕ, zero, suc, ◌+◌, ◌-◌, ◌==◌, ltb, leb, Str, String, lit, atoi, str_eq, is_empty, has_prefix,
  trim_prefix, trim_space, trim_right_byte, split, join, length, concat, Bool, true, false, not,
  ◌&&◌, ◌||◌, if◌then◌else◌, Option, none, some, List, [], ◌∷◌, ◌++◌, map, Error, errorf, wrapf,
  Result, ok, err,
}
use proxclt.Config.Loader.{clean}

-- `filter` is the text after the bar, empty where there is none.
pub record Placeholder : Type 0 where
  pub kind : Str
  pub spec : Str
  pub filter : Str
  pub raw : Str

-- The bytes up to the first one that stops, and the rest with it.
unfoldable pub span : (ℕ → Bool) → Str → Str × Str
span stops [] = ([], [])
span stops (c ∷ s) =
    let more = span stops s in if stops c then ([], c ∷ s) else (c ∷ more.0, more.1)

abbrev pub is_brace : ℕ → Bool
is_brace c = c == 125

abbrev pub is_brace_or_bar : ℕ → Bool
is_brace_or_bar c = (c == 125) || (c == 124)

-- s[len(p):], for a prefix p of s
unfoldable pub after : Str → Str → Str
after s [] = s
after [] (b ∷ p) = []
after (a ∷ s) (b ∷ p) = after s p

unfoldable pub raw_of : Str → Str → Str → Str
raw_of kind spec tail = concat (lit "${" ∷ kind ∷ lit ":" ∷ spec ∷ tail ∷ lit "}" ∷ [])

-- The text after the bar, up to the brace.
unfoldable pub match_filter : Str → Str → Str × Str → Option Placeholder
unfolding raw_of
match_filter kind spec (f, []) = none
match_filter kind spec (f, c ∷ rest) =
    if is_empty f
    then none
    else some
        (record { kind = kind; spec = spec; filter = f; raw = raw_of kind spec (lit "|" ++ f) })

-- What follows the spec: the brace, or the bar and a filter.
unfoldable pub match_end : Str → Str × Str → Option Placeholder
unfolding span match_filter raw_of
match_end kind (spec, []) = none
match_end kind (spec, c ∷ rest) =
    if is_empty spec
    then none
    else if c == 125
    then some (record { kind = kind; spec = spec; filter = []; raw = raw_of kind spec [] })
    else match_filter kind spec (span is_brace rest)

unfoldable pub match_kind : List Str → Str → Option Placeholder
unfolding after span match_end
match_kind [] s = none
match_kind (k ∷ ks) s =
    let other = match_kind ks s in
    if has_prefix s (k ++ lit ":")
    then match_end k (span is_brace_or_bar (after s (k ++ lit ":")))
    else other

abbrev kinds : List Str
kinds = lit "env" ∷ lit "file" ∷ lit "vault" ∷ lit "gen" ∷ lit "ref" ∷ []

-- The match of placeholderPattern that starts at the first byte.
unfoldable pub match_here : Str → Option Placeholder
unfolding match_kind after
match_here s = if has_prefix s (lit "${") then match_kind kinds (after s (lit "${")) else none

-- A string as bytes and placeholders, from the left; `skip` bytes belong to the match before.
pub data Token : Type 0 where
  plain : ℕ → Token
  token : Placeholder → Token

unfoldable pub tokens : ℕ → Str → List Token
unfolding match_here
tokens skip [] = []
tokens (suc skip) (c ∷ s) = tokens skip s
tokens zero (c ∷ s) = elim (match_here (c ∷ s)) [
  | none ↦ plain c ∷ tokens 0 s
  | some p ↦ token p ∷ tokens (length p.raw - 1) s
]

unfoldable pub placeholders_of : List Token → List Placeholder
placeholders_of [] = []
placeholders_of (plain c ∷ ts) = placeholders_of ts
placeholders_of (token p ∷ ts) = p ∷ placeholders_of ts

-- ParsePlaceholders
unfoldable pub parse_placeholders : Str → List Placeholder
unfolding tokens placeholders_of
parse_placeholders s = placeholders_of (tokens 0 s)

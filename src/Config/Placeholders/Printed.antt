-- ===== src/Config/Placeholders/Printed.antt =====
-- ParsePlaceholders of pkg/config/resolver.go on the text of a placeholder.
use proxclt.Base.{
  ℕ, ◌-◌, Str, lit, concat, has_prefix, is_empty, length, Bool, true, false, [], ◌∷◌, ◌++◌, All,
  some, ◌≡◌, ◌≢◌, refl, ap, arith,
}
use proxclt.Config.Placeholders.{
  Placeholder, match_here, tokens, placeholders_of, parse_placeholders, span, match_end, match_kind,
  match_filter, after, raw_of, is_brace, is_brace_or_bar,
}

span-stops :
    (stops : ℕ → Bool) (s : Str) (c : ℕ) (rest : Str)
    → All (λ b. stops b ≡ false) s
    → stops c ≡ true
    → span stops (s ++ c ∷ rest) ≡ (s, c ∷ rest)
unfolding span
span-stops stops [] c rest h stop = rw stop refl
span-stops stops (b ∷ s) c rest h stop = rw (h.0, span-stops stops s c rest h.1 stop) refl

tokens-length : (s : Str) → tokens (length s) s ≡ []
unfolding tokens
tokens-length [] = refl
tokens-length (c ∷ s) = tokens-length s

parse-whole :
    (c : ℕ) (s : Str) (p : Placeholder)
    → match_here (c ∷ s) ≡ some p
    → p.raw ≡ c ∷ s
    → parse_placeholders (c ∷ s) ≡ p ∷ []
unfolding parse_placeholders tokens placeholders_of
parse-whole c s p m r =
    let rest : length p.raw - 1 ≡ length s = omega (arith, ap length r) in
    rw (m, tokens) (rw rest (rw (tokens-length s) refl))

-- The kinds of the pattern.
pub data Source : Type 0 where
  env file vault gen ref : Source

unfoldable pub source_name : Source → Str
source_name env = lit "env"
source_name file = lit "file"
source_name vault = lit "vault"
source_name gen = lit "gen"
source_name ref = lit "ref"

-- The bar and the filter, nothing where the filter is empty.
unfoldable pub tail_of : Str → Str
tail_of [] = []
tail_of (f ∷ fs) = lit "|" ++ f ∷ fs

-- What follows the colon is read back as the spec and the filter.
end-read :
    (kind spec filter : Str)
    → All (λ b. is_brace_or_bar b ≡ false) spec
    → spec ≢ []
    → All (λ b. is_brace b ≡ false) filter
    → match_end kind (span is_brace_or_bar (spec ++ (tail_of filter ++ 125 ∷ [])))
      ≡ some (record {
        kind = kind;
        spec = spec;
        filter = filter;
        raw = raw_of kind spec (tail_of filter);
      })
unfolding match_end match_filter tail_of lit is_empty
end-read kind [] filter hs ne hf = absurd (ne refl)
end-read kind (b ∷ spec) [] hs ne hf =
    rw (span-stops is_brace_or_bar (b ∷ spec) 125 [] hs refl) refl
end-read kind (b ∷ spec) (f ∷ fs) hs ne hf =
    rw (span-stops is_brace_or_bar (b ∷ spec) 124 (f ∷ fs ++ 125 ∷ []) hs refl)
      (rw (span-stops is_brace (f ∷ fs) 125 [] hf refl) refl)

here-read :
    (k : Source) (spec filter : Str)
    → All (λ b. is_brace_or_bar b ≡ false) spec
    → spec ≢ []
    → All (λ b. is_brace b ≡ false) filter
    → match_here (raw_of (source_name k) spec (tail_of filter))
      ≡ some (record {
        kind = source_name k;
        spec = spec;
        filter = filter;
        raw = raw_of (source_name k) spec (tail_of filter);
      })
unfolding match_here match_kind has_prefix after lit concat raw_of source_name
here-read env spec filter hs ne hf = end-read (lit "env") spec filter hs ne hf
here-read file spec filter hs ne hf = end-read (lit "file") spec filter hs ne hf
here-read vault spec filter hs ne hf = end-read (lit "vault") spec filter hs ne hf
here-read gen spec filter hs ne hf = end-read (lit "gen") spec filter hs ne hf
here-read ref spec filter hs ne hf = end-read (lit "ref") spec filter hs ne hf

-- The text of a placeholder of a known kind is parsed back to its parts, where the spec is not empty
-- and has no brace and no bar, and the filter has no brace.
pub parse-printed :
    (k : Source) (spec filter : Str)
    → All (λ b. is_brace_or_bar b ≡ false) spec
    → spec ≢ []
    → All (λ b. is_brace b ≡ false) filter
    → parse_placeholders (raw_of (source_name k) spec (tail_of filter))
      ≡ record {
        kind = source_name k;
        spec = spec;
        filter = filter;
        raw = raw_of (source_name k) spec (tail_of filter);
      }
        ∷ []
unfolding raw_of concat lit
parse-printed k spec filter hs ne hf = parse-whole 36 _ _ (here-read k spec filter hs ne hf) refl

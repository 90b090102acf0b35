-- ===== src/Config/Placeholders/Plain.antt =====
-- Strings that hold no placeholder, for expandPlaceholders of pkg/config/resolver.go.
use proxclt.Base.{ℕ, Str, lit, has_prefix, false, [], ◌∷◌, All, none, ◌≡◌, ◌≢◌, refl, arith}
use proxclt.Config.Placeholders.{match_here, tokens}
use proxclt.Config.Placeholders.Expand.{ResolverOpts, expand_tokens, expand_placeholders}

-- No byte is a dollar sign.
abbrev pub NoDollar : Str → Type 0
NoDollar = All (λ c. c ≢ 36)

not-opened : (c : ℕ) (s : Str) → c ≢ 36 → has_prefix (c ∷ s) (lit "${") ≡ false
unfolding has_prefix lit
not-opened c s ne = ground arith

match_here-none : (c : ℕ) (s : Str) → c ≢ 36 → match_here (c ∷ s) ≡ none
unfolding match_here
match_here-none c s ne = rw (not-opened c s ne) refl

expand_tokens-NoDollar :
    (o : ResolverOpts) (s : Str)
    → NoDollar s
    → expand_tokens o (tokens 0 s) ≡ record { text = s; unresolved = []; errors = [] }
unfolding tokens expand_tokens
expand_tokens-NoDollar o [] h = refl
expand_tokens-NoDollar o (c ∷ s) h =
    rw (match_here-none c s h.0, tokens) (rw (expand_tokens-NoDollar o s h.1) refl)

-- A string without a dollar sign is expanded to itself, whatever the environment: nothing is left
-- unresolved, and there is no error.
pub expand-NoDollar :
    (o : ResolverOpts) (s : Str)
    → NoDollar s
    → expand_placeholders o s ≡ record { text = s; unresolved = []; errors = [] }
unfolding expand_placeholders
expand-NoDollar o s h = expand_tokens-NoDollar o s h

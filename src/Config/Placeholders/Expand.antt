-- ===== src/Config/Placeholders/Expand.antt =====
-- pkg/config/resolver.go: the expansion of the placeholders in one string. The lookup of variables
-- and files, SHA-256, base64 and the walk of a ref path by reflection are given functions.
use proxclt.Base.{
  ℕ, zero, suc, ◌==◌, Str, lit, atoi, str_eq, is_empty, has_prefix, trim_prefix, trim_space,
  trim_right_byte, split, concat, if◌then◌else◌, Option, none, some, List, [], ◌∷◌, ◌++◌, map,
  Error, errorf, wrapf, Result, ok, err,
}
use proxclt.Config.Loader.{clean}
use proxclt.Config.Placeholders.{Placeholder, Token, plain, token, tokens, after}

pub record ResolverOpts : Type 0 where
  pub env_name : Str
  pub lookup_env : Str → Option Str
  pub read_file : Str → Result Str
  pub home : Option Str
  pub sha256_hex : Str → Str
  pub base64 : Str → Str
  pub ref_path : Str → Result Str

unfoldable pub filters_of : Str → List Str
filters_of pipe = if is_empty pipe then [] else map trim_space (split 124 pipe)

unfoldable pub default_filter : List Str → Option Str
default_filter [] = none
default_filter (f ∷ fs) =
    let later = default_filter fs in
    if has_prefix f (lit "default:") then some (trim_prefix f (lit "default:")) else later

unfoldable pub take : ℕ → Str → Str
take zero s = []
take (suc n) [] = []
take (suc n) (c ∷ s) = c ∷ take n s

unfoldable pub part : ℕ → List Str → Option Str
part n [] = none
part zero (p ∷ ps) = some p
part (suc n) (p ∷ ps) = part n ps

abbrev or_text : Option Str → Str → Str
or_text none d = d
or_text (some s) d = s

unfoldable pub password : ResolverOpts → Option ℕ → Str → Str
unfolding take
password o none seed = []
password o (some n) seed =
    if n == 0 then [] else take n (o.sha256_hex (concat (o.env_name ∷ lit ":" ∷ seed ∷ [])))

abbrev number_at : Option Str → Option ℕ
number_at none = none
number_at (some s) = atoi s

-- expandGen: a length beyond the digest takes all of it.
unfoldable pub expand_gen : ResolverOpts → Str → Str
unfolding part password
expand_gen o spec =
    let parts = split 58 spec in
    let kind = or_text (part 0 parts) [] in
    if str_eq kind (lit "password")
    then password o (number_at (part 1 parts)) (or_text (part 2 parts) [])
    else if str_eq kind (lit "ssh_key")
    then concat (lit "<GEN_SSH_KEY:" ∷ or_text (part 1 parts) (lit "ed25519") ∷ lit ">" ∷ [])
    else []

unfoldable pub expand_home : Option Str → Str → Str
unfolding after
expand_home none p = p
expand_home (some h) p =
    if has_prefix p (lit "~/") then clean (concat (h ∷ lit "/" ∷ after p (lit "~/") ∷ [])) else p

-- The text that replaces a placeholder, with what it adds to the two lists of ResolveResult.
pub record Expansion : Type 0 where
  pub text : Str
  pub unresolved : List Str
  pub errors : List Error

unfoldable pub apply_filters : ResolverOpts → List Str → Str → Str
apply_filters o [] value = value
apply_filters o (f ∷ fs) value =
    apply_filters o fs (if str_eq f (lit "base64") then o.base64 value else value)

abbrev value_of : ResolverOpts → List Str → List Str → Str → Expansion
value_of o filters unresolved v = record {
  text = apply_filters o filters v;
  unresolved = unresolved;
  errors = [];
}

-- The default, or an error that leaves the placeholder as it is.
unfoldable pub or_default : ResolverOpts → Placeholder → List Str → Error → Option Str → Expansion
unfolding apply_filters
or_default o p filters e (some def) = value_of o filters [] def
or_default o p filters e none = record { text = p.raw; unresolved = []; errors = e ∷ [] }

unfoldable pub expand_env : ResolverOpts → Placeholder → List Str → Option Str → Expansion
unfolding apply_filters or_default default_filter
expand_env o p filters (some (c ∷ v)) = value_of o filters [] (c ∷ v)
expand_env o p filters (some []) =
    or_default o p filters (errorf "env var %q not set and no default" (p.spec ∷ []))
      (default_filter filters)
expand_env o p filters none =
    or_default o p filters (errorf "env var %q not set and no default" (p.spec ∷ []))
      (default_filter filters)

unfoldable pub expand_file : ResolverOpts → Placeholder → List Str → Result Str → Expansion
unfolding apply_filters or_default default_filter
expand_file o p filters (ok b) = value_of o filters [] (trim_right_byte 10 b)
expand_file o p filters (err e) =
    or_default o p filters (wrapf "file %q: %w" (p.spec ∷ []) e) (default_filter filters)

unfoldable pub expand_ref : ResolverOpts → Placeholder → List Str → Result Str → Expansion
unfolding apply_filters
expand_ref o p filters (ok v) = value_of o filters [] v
expand_ref o p filters (err e) = record { text = p.raw; unresolved = []; errors = e ∷ [] }

unfoldable pub expand_one : ResolverOpts → Placeholder → Expansion
unfolding filters_of expand_env expand_file expand_home expand_gen expand_ref apply_filters
expand_one o p =
    let filters = filters_of p.filter in
    if str_eq p.kind (lit "env")
    then expand_env o p filters (o.lookup_env p.spec)
    else if str_eq p.kind (lit "file")
    then expand_file o p filters (o.read_file (expand_home o.home p.spec))
    else if str_eq p.kind (lit "vault")
    then value_of o filters (p.raw ∷ []) (concat (lit "<VAULT:" ∷ p.spec ∷ lit ">" ∷ []))
    else if str_eq p.kind (lit "gen")
    then value_of o filters (if has_prefix p.spec (lit "ssh_key:") then p.raw ∷ [] else [])
        (expand_gen o p.spec)
    else expand_ref o p filters (o.ref_path p.spec)

abbrev add : Expansion → Expansion → Expansion
add x y = record {
  text = x.text ++ y.text;
  unresolved = x.unresolved ++ y.unresolved;
  errors = x.errors ++ y.errors;
}

unfoldable pub expand_tokens : ResolverOpts → List Token → Expansion
unfolding expand_one
expand_tokens o [] = record { text = []; unresolved = []; errors = [] }
expand_tokens o (plain c ∷ ts) =
    add (record { text = c ∷ []; unresolved = []; errors = [] }) (expand_tokens o ts)
expand_tokens o (token p ∷ ts) = add (expand_one o p) (expand_tokens o ts)

-- expandPlaceholders
unfoldable pub expand_placeholders : ResolverOpts → Str → Expansion
unfolding tokens expand_tokens
expand_placeholders o s = expand_tokens o (tokens 0 s)

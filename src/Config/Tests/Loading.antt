-- ===== src/Config/Tests/Loading.antt =====
-- The theorems on loading, for a manifest that refers to two files.
use proxclt.Base.{
  false, All, ◌≢◌, if◌then◌else◌, trim_prefix, trim_space, concat, arith, Str, lit, str_eq,
  is_empty, has_prefix, split, join, none, some, [], ◌∷◌, errorf, Result, err, ok, ◌≡◌, refl,
}
use proxclt.Config.Model.{EnvSpec}
use proxclt.Config.Validators.{has_name}
use proxclt.Config.Loader.{
  Decoders, Resolving, locate, clean, clean_from, resolve_ref, resolve_at, resolve_all,
  resolve_refs, copy_inline, parent_of, read_at,
}
use proxclt.Config.Loader.Refs.{Distinct, visited, resolve_refs-Distinct}
use proxclt.Config.Placeholders.{
  tokens, match_here, match_kind, match_end, match_filter, after, span, raw_of,
}
use proxclt.Config.Placeholders.Expand.{
  ResolverOpts, expand_placeholders, expand_tokens, expand_one, expand_env, filters_of,
  apply_filters, or_default, default_filter,
}
use proxclt.Config.Placeholders.Plain.{NoDollar}
use proxclt.Config.Placeholders.{is_brace, is_brace_or_bar, parse_placeholders}
use proxclt.Config.Placeholders.Printed.{env, source_name, tail_of, parse-printed}
use proxclt.Config.Tests.Rules.{env_of, hypervisor_of, networks, inline_of, linux, cluster}

abbrev read : Str → Result Str
read path = ok path

-- Decodes the two files, and nothing else.
abbrev decoders : Decoders
decoders = record {
  env = λ b. err (errorf "no env" []);
  hypervisor = λ b. ok (hypervisor_of []);
  networks = λ b. ok networks;
  storage_classes = λ b. err (errorf "no classes" []);
  linux = λ b. err (errorf "no linux" []);
  cluster = λ b. err (errorf "no cluster" []);
  database = λ b. err (errorf "no database" []);
}

abbrev spec : EnvSpec
spec = record (env_of []).spec {
  hypervisor = record { ref = lit "h.yaml"; value = none; inline = none };
  networks = record { ref = lit "../n.yaml"; value = none; inline = none };
}

abbrev settled : Resolving EnvSpec
settled = (
  record spec {
    hypervisor = record { ref = lit "h.yaml"; value = some (hypervisor_of []); inline = none };
    networks = record { ref = lit "../n.yaml"; value = some networks; inline = none };
    storage_classes = copy_inline spec.storage_classes;
    linux = some (copy_inline (inline_of linux));
    cluster = some (copy_inline (inline_of cluster));
  },
  lit "/n.yaml" ∷ lit "/e/h.yaml" ∷ [],
)

runs : resolve_refs read decoders (lit "/e") spec [] ≡ ok settled
unfolding resolve_refs resolve_ref resolve_at resolve_all copy_inline read_at locate clean
    clean_from has_prefix split join lit str_eq is_empty has_name parent_of
runs = refl

resolve_refs-Distinct_example :
    (settled.1 ≡ visited (lit "/e") spec []) × Distinct (visited (lit "/e") spec [])
resolve_refs-Distinct_example =
    resolve_refs-Distinct read (lit "/e") decoders spec [] settled tt runs

abbrev opts : ResolverOpts
opts = record {
  env_name = lit "lab";
  lookup_env = λ k. if str_eq k (lit "HOME") then some (lit "/root") else none;
  read_file = λ p. err (errorf "no file" []);
  home = none;
  sha256_hex = λ s. s;
  base64 = λ s. s;
  ref_path = λ p. err (errorf "no field" []);
}

plain_text : NoDollar (lit "a:b")
unfolding lit
plain_text = ground arith

-- A variable that is set, one with a default, and a path in Vault.
expands :
    expand_placeholders opts (lit "x${env:HOME}-${env:NO|default:d}${vault:k}")
    ≡ record { text = lit "x/root-d<VAULT:k>"; unresolved = lit "${vault:k}" ∷ []; errors = [] }
unfolding expand_placeholders tokens match_here match_kind match_end match_filter after span raw_of
    expand_tokens expand_one expand_env filters_of apply_filters or_default default_filter lit
    has_prefix trim_prefix str_eq is_empty split trim_space concat
expands = refl

readable :
    All (λ b. is_brace_or_bar b ≡ false) (lit "HOME")
    × ((lit "HOME" ≢ []) × All (λ b. is_brace b ≡ false) (lit "base64"))
unfolding lit
readable = (
  (refl, (refl, (refl, (refl, tt)))),
  (λ h. cc, (refl, (refl, (refl, (refl, (refl, (refl, tt))))))),
)

parse-printed_example :
    parse_placeholders (raw_of (source_name env) (lit "HOME") (tail_of (lit "base64")))
    ≡ record {
      kind = source_name env;
      spec = lit "HOME";
      filter = lit "base64";
      raw = raw_of (source_name env) (lit "HOME") (tail_of (lit "base64"));
    }
      ∷ []
parse-printed_example =
    parse-printed env (lit "HOME") (lit "base64") readable.0 readable.1.0 readable.1.1

-- ===== src/Root/Flags.antt =====
-- resolveDeprecatedFlags and migrateStacksRegistry of internal/root/root.go.
pub mod Once
use proxclt.Base.{
  Str, is_empty, Bool, true, false, not, ◌&&◌, if◌then◌else◌, Option, none, some, List, [], ◌∷◌,
  ◌++◌, Error,
}

-- The flags --stack and --env, the variables PROXCTL_STACK and PROXCTL_ENV, and what was warned of.
pub record Names : Type 0 where
  pub stack : Str
  pub env : Str
  pub stack_var : Str
  pub env_var : Str
  pub env_deprecated : Bool
  pub env_flag_deprecated : Bool
  pub env_var_deprecated : Bool

pub data Warning : Type 0 where
  verb flag variable : Warning

-- A warning that is printed unless it was before.
abbrev warn : Bool → Warning → List Warning
warn true w = []
warn false w = w ∷ []

-- The verb of the command, or one above it, is the hidden `env`.
unfoldable pub resolve_verb : Bool → Names → Names × List Warning
resolve_verb false n = (n, [])
resolve_verb true n = (record n { env_deprecated = true }, warn n.env_deprecated verb)

unfoldable pub resolve_flag : Names → Names × List Warning
unfolding is_empty
resolve_flag n = if is_empty n.env then (n, []) else (
  record n { env_flag_deprecated = true; stack = if is_empty n.stack then n.env else n.stack },
  warn n.env_flag_deprecated flag,
)

unfoldable pub resolve_variable : Names → Names × List Warning
unfolding is_empty
resolve_variable n =
    if is_empty n.stack_var && not (is_empty n.env_var)
    then (
      record n { env_var_deprecated = true; stack_var = n.env_var },
      warn n.env_var_deprecated variable,
    )
    else (n, [])

unfoldable pub resolve_deprecated_flags : Bool → Names → Names × List Warning
unfolding resolve_verb resolve_flag resolve_variable
resolve_deprecated_flags under_env n =
    let (n1, w1) = resolve_verb under_env n in
    let (n2, w2) = resolve_flag n1 in let (n3, w3) = resolve_variable n2 in (n3, w1 ++ (w2 ++ w3))

-- The commands of one process, one after the other.
unfoldable pub resolve_commands : Names → List Bool → Names × List Warning
unfolding resolve_deprecated_flags
resolve_commands n [] = (n, [])
resolve_commands n (under_env ∷ rest) =
    let (next, w) = resolve_deprecated_flags under_env n in
    let (last, later) = resolve_commands next rest in (last, w ++ later)

-- Whether envs.yaml and stacks.yaml are there.
pub record Registry : Type 0 where
  pub envs : Bool
  pub stacks : Bool

pub data Notice : Type 0 where
  both_exist could_not_migrate migrated : Notice

-- os.Rename of envs.yaml, and what is said of it.
unfoldable pub rename_envs : Option Error → Registry → Registry × List Notice
rename_envs none r = (record { envs = false; stacks = true }, migrated ∷ [])
rename_envs (some e) r = (r, could_not_migrate ∷ [])

-- What happens once a process, with the error of a rename; without a home directory nothing.
unfoldable pub migrate_stacks_registry : Bool → Option Error → Registry → Registry × List Notice
unfolding rename_envs
migrate_stacks_registry false failure r = (r, [])
migrate_stacks_registry true failure r =
    if r.stacks && r.envs
    then (r, both_exist ∷ [])
    else if not r.stacks && r.envs
    then rename_envs failure r
    else (r, [])

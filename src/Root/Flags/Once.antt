-- ===== src/Root/Flags/Once.antt =====
-- Each deprecation is warned of once, and the old names stand in for the new ones.
use proxclt.Base.{ℕ, ◌+◌, ◌≤◌, Bool, true, false, if◌then◌else◌, List, [], ◌∷◌, ◌++◌, ◌≡◌, arith}
use proxclt.Root.Flags.{
  Names, Warning, verb, flag, variable, resolve_verb, resolve_flag, resolve_variable,
  resolve_deprecated_flags, resolve_commands,
}

-- One where a warning is the one that is counted.
abbrev is_warning : Warning → Warning → ℕ
is_warning verb verb = 1
is_warning verb flag = 0
is_warning verb variable = 0
is_warning flag verb = 0
is_warning flag flag = 1
is_warning flag variable = 0
is_warning variable verb = 0
is_warning variable flag = 0
is_warning variable variable = 1

abbrev pub times : Warning → List Warning → ℕ
times w [] = 0
times w (v ∷ rest) = is_warning w v + times w rest

times-append : (w : Warning) (xs ys : List Warning) → times w (xs ++ ys) ≡ times w xs + times w ys
times-append w [] ys = omega arith
times-append w (x ∷ xs) ys = omega (arith, times-append w xs ys)

-- How often a warning may still be printed.
abbrev pub allowance : Warning → Names → ℕ
allowance verb n = if n.env_deprecated then 0 else 1
allowance flag n = if n.env_flag_deprecated then 0 else 1
allowance variable n = if n.env_var_deprecated then 0 else 1

resolve-allowance :
    (under_env : Bool) (n : Names) (w : Warning)
    → times w (resolve_deprecated_flags under_env n).1
        + allowance w (resolve_deprecated_flags under_env n).0
      ≤ allowance w n
unfolding resolve_deprecated_flags resolve_verb resolve_flag resolve_variable
resolve-allowance true n verb = ground arith
resolve-allowance true n flag = ground arith
resolve-allowance true n variable = ground arith
resolve-allowance false n verb = ground arith
resolve-allowance false n flag = ground arith
resolve-allowance false n variable = ground arith

-- Over all the commands of a process, each of the three warnings is printed at most once, and not at all
-- where it was printed before.
pub resolve_commands-Once :
    (n : Names) (commands : List Bool) (w : Warning)
    → times w (resolve_commands n commands).1 ≤ allowance w n
unfolding resolve_commands
resolve_commands-Once n [] w = omega arith
resolve_commands-Once n (c ∷ rest) w =
    let first = resolve_deprecated_flags c n in
    omega (
      arith,
      times-append w first.1 (resolve_commands first.0 rest).1,
      resolve-allowance c n w,
      resolve_commands-Once first.0 rest w,
    )

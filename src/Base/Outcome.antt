-- ===== src/Base/Outcome.antt =====
-- Go's `error` values, results that may carry one, and actions on the outside world that may fail.
use Prim.Native.Nat.{ℕ}
use Prim.Native.String.{String}
use mathlib.Core.Path.{◌≡◌, refl, ap}
use mathlib.Core.Bool.{Bool, true, false}
use mathlib.Core.Option.{Option, none, some}
use mathlib.Core.Logic.{◌⊎◌, inl, inr}
use mathlib.Core.List.{List, [], ◌∷◌}
use proxclt.Base.Text.{Str}

-- `errorf` is errors.New, or fmt.Errorf with its format and its arguments; `wrapf` has a %w too.
-- `join` is one step of errors.Join.
pub data Error : Type 0 where
  errorf : String → List Str → Error
  wrapf : String → List Str → Error → Error
  join : Error → Error → Error
  api : ℕ → Str → List (Str × Str) → Error
  vm_not_found snapshot_not_found storage_not_found : Error
  unknown_schema chain_broken hash_mismatch : Error
  foreign : Str → Error

pub data Result {ℓ} (A : Type ℓ) : Type ℓ where
  ok : A → Result A
  err : Error → Result A

-- if err != nil { return fmt.Errorf("…: %w", err) }
abbrev pub wrap {ℓ} : {A : Type ℓ} → String → List Str → Result A → Result A
wrap f args (ok a) = ok a
wrap f args (err e) = err (wrapf f args e)

abbrev pub require {ℓ} : {A : Type ℓ} → Error → Option A → Result A
require e none = err e
require e (some a) = ok a

-- if … { return the error }
abbrev pub refuse_if : Bool → Error → Result (Unit {0})
refuse_if true failure = err failure
refuse_if false failure = ok tt

infixl 5 ◌>>=◌ ◌>>◌
-- The statements after an `if err != nil { return err }`, which use what the call returned.
abbrev pub ◌>>=◌ {ℓ μ} : {A : Type ℓ} {R : Type μ} → Result A → (A → Result R) → Result R
err failure >>= rest = err failure
ok value >>= rest = rest value

-- The same after a call that returns an error alone.
abbrev pub ◌>>◌ {ℓ} : {R : Type ℓ} → Result (Unit {0}) → Result R → Result R
first >> rest = first >>= λ _. rest

unfoldable pub join_all : Error → List Error → Error
join_all e [] = e
join_all e (f ∷ r) = join e (join_all f r)

-- errors.Join(errs...): nil where no error is left.
unfoldable pub joined : List Error → Result (Unit {0})
unfolding join_all
joined [] = ok tt
joined (e ∷ r) = err (join_all e r)

pub joined-ok : (errs : List Error) → joined errs ≡ ok tt → errs ≡ []
unfolding joined
joined-ok [] h = refl
joined-ok (e ∷ r) h = cc

pub Result-cases {ℓ} :
    {A : Type ℓ} (outcome : Result A)
    → ((value : A) × (outcome ≡ ok value)) ⊎ ((failure : Error) × (outcome ≡ err failure))
Result-cases (err failure) = inr (failure, refl)
Result-cases (ok value) = inl (value, refl)

abbrev from_ok {ℓ} : {A : Type ℓ} → A → Result A → A
from_ok d (ok a) = a
from_ok d (err e) = d

pub ok-injective {ℓ} : {A : Type ℓ} {a b : A} → ok a ≡ ok b → a ≡ b
ok-injective {a} p = ap (from_ok a) p

-- Where a sequence succeeds, its first call did, and so did the rest on what the call returned.
pub >>=-ok {ℓ μ} :
    {A : Type ℓ} {R : Type μ} (first : Result A) (rest : A → Result R) {value : R}
    → (first >>= rest) ≡ ok value
    → (a : A) × (first ≡ ok a) × (rest a ≡ ok value)
>>=-ok (err failure) rest h = cc
>>=-ok (ok a) rest h = (a, refl, h)

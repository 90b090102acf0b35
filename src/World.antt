-- ===== src/World.antt =====
-- What the program does to the outside and what it is answered: the HTTP requests of
-- pkg/proxmox/client.go, the steps of pkg/workflow/single_vm.go that run other programs, the SSH
-- probe of pkg/workflow/finalize.go. The outside is a function of all that has happened.
use proxclt.Base.{
  ℕ, Str, String, Option, none, some, List, ◌∷◌, Error, wrapf, Result, ok, err, ◌≡◌, ◌≢◌, refl, ap,
}
use proxclt.Config.Model.{Dict, Value, Env}

pub data Method : Type 0 where
  get post put delete : Method

-- `form` is a url.Values, `multipart` the upload of a local file under a remote name.
pub data Body : Type 0 where
  no_body : Body
  form : Dict Str → Body
  multipart : Str → Str → Body

pub record Request : Type 0 where
  pub method : Method
  pub path : Str
  pub body : Body

pub data Event : Type 0 where
  request : Request → Event
  rendered : Str → Event
  built : Str → Str → Event
  removed : Str → Event
  probed : Str → ℕ → Event
  slept : Event
  printed : String → List Str → Event

-- An answer of the HTTP client: its error, or a status code and the bytes of the body.
pub data Reply : Type 0 where
  failed : Error → Reply
  replied : ℕ → Str → Reply

-- What json.Unmarshal finds in the body of a reply.
pub record Envelope : Type 0 where
  pub content : Value
  pub errors : Dict Str
  pub message : Str

-- The code that is called but not modelled. A history has the latest event first; `reply` and
-- `probe` answer the event at its head. `patience` is how often a timer fires before the context
-- of the call is done, `canceled` what its Err returns then; `attempts` is how many SSH probes
-- start before their deadline, which is finite since each is followed by a wait of an interval.
pub record Host : Type 0 where
  pub reply : List Event → Reply
  pub decode : Str → Option Envelope
  pub render : Env → Str → Result Str
  pub build : Str → Str → Result Str
  pub open_file : Str → Option Error
  pub probe : List Event → Option Error
  pub patience : ℕ
  pub attempts : ℕ
  pub canceled : Error

abbrev pub Action {ℓ} : Type ℓ → Type ℓ
Action A = Host → List Event → Result A × List Event

-- What an action returns, and the history it leaves.
abbrev pub outcome {ℓ} : {A : Type ℓ} → Result A × List Event → Result A
outcome (r, hist) = r

abbrev pub history {ℓ} : {A : Type ℓ} → Result A × List Event → List Event
history (r, hist) = hist

abbrev pub return {ℓ} : {A : Type ℓ} → Result A → Action A
return r host hist = (r, hist)

-- A call outside that returns an error alone.
abbrev pub no_error : Option Error → Result (Unit {0})
no_error none = ok tt
no_error (some e) = err e

-- return ctx.Err()
abbrev pub give_up {ℓ} : {A : Type ℓ} → Action A
give_up host hist = (err host.canceled, hist)

abbrev pub record_event : Event → Action (Unit {0})
record_event e host hist = (ok tt, e ∷ hist)

abbrev pub proceed {ℓ μ} :
    {A : Type ℓ} {R : Type μ}
    → (A → Action R)
    → Host
    → Result A × List Event
    → Result R × List Event
proceed rest host (err failure, hist) = (err failure, hist)
proceed rest host (ok value, hist) = rest value host hist

infixl 5 ◌>>=◌ ◌>>◌
-- The statements after an `if err != nil { return err }`.
abbrev pub ◌>>=◌ {ℓ μ} : {A : Type ℓ} {R : Type μ} → Action A → (A → Action R) → Action R
◌>>=◌ first rest host hist = proceed rest host (first host hist)

abbrev pub ◌>>◌ {ℓ} : {R : Type ℓ} → Action (Unit {0}) → Action R → Action R
first >> rest = first >>= λ _. rest

-- The error of a call is changed before it is returned.
abbrev pub failing_as {ℓ} : {A : Type ℓ} → (Error → Error) → Result A → Result A
failing_as change (ok value) = ok value
failing_as change (err failure) = err (change failure)

abbrev pub amend {ℓ} :
    {A : Type ℓ} → (Error → Error) → Result A × List Event → Result A × List Event
amend change (r, hist) = (failing_as change r, hist)

abbrev pub changing {ℓ} : {A : Type ℓ} → (Error → Error) → Action A → Action A
changing change call host hist = amend change (call host hist)

-- return fmt.Errorf("…: %w", err)
abbrev pub within {ℓ} : {A : Type ℓ} → String → List Str → Action A → Action A
within text args = changing (wrapf text args)

-- `_ = call`
abbrev pub ignore {ℓ} : {A : Type ℓ} → Result A × List Event → Result (Unit {0}) × List Event
ignore (r, hist) = (ok tt, hist)

abbrev pub best_effort {ℓ} : {A : Type ℓ} → Action A → Action (Unit {0})
best_effort call host hist = ignore (call host hist)

-- Where a sequence succeeds, its first call did, and so did the rest from the history that it left.
pub proceed-ok {ℓ μ} :
    {A : Type ℓ} {R : Type μ} (rest : A → Action R) (host : Host) (x : Result A × List Event)
    {value : R} {last : List Event}
    → proceed rest host x ≡ (ok value, last)
    → (a : A) × (next : List Event) × (x ≡ (ok a, next)) × (rest a host next ≡ (ok value, last))
proceed-ok rest host (err failure, next) h = cc (ap outcome h)
proceed-ok rest host (ok a, next) h = (a, next, refl, h)

-- A sequence does not succeed, where after a first call that did, the rest does not.
pub >>=-ne-ok {ℓ μ} :
    {A : Type ℓ} {R : Type μ} (first : Action A) (rest : A → Action R) (host : Host)
    (hist : List Event) {value : R}
    → ((a : A) (next : List Event)
        → first host hist ≡ (ok a, next)
        → outcome (rest a host next) ≢ ok value)
    → outcome ((first >>= rest) host hist) ≢ ok value
>>=-ne-ok {A} {R} first rest host hist {value} h = decided (first host hist) h
  where
    decided :
        (x : Result A × List Event)
        → ((a : A) (next : List Event) → x ≡ (ok a, next) → outcome (rest a host next) ≢ ok value)
        → outcome (proceed rest host x) ≢ ok value
    decided (err failure, next) g e = cc e
    decided (ok a, next) g e = g a next refl e

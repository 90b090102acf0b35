-- ===== src/Root/Replay/Unchanged.antt =====
-- What `replay` reports of a trace that it can load.
use mathlib.Core.Path.{subst}
use proxclt.Base.{
  ℕ, ◌+◌, Str, str_eq_refl, Bool, Bool-cases, true, if◌then◌else◌, Option, Option-cases, none, some,
  List, [], ◌∷◌, map, length, Error, Result, ok, err, ◌≡◌, refl, ap, ◌∙◌, inl, inr, arith,
}
use proxclt.Trace.Schema.{Record, Codec, verify_chain}
use proxclt.Trace.Reader.{load_all, read_all, checked}
use proxclt.Trace.Replay.{
  Mode, strict, observe, dry_run, Outcome, Json, replay, replay_from, compare_output,
  equal_normalized, is_executed, match_of, add, skip,
}
use proxclt.Root.Replay.{
  mock_executor, Summary, summary, count_one, mode_of, loaded, replay_records, run_replay,
}

module _ (j : Json) where
  equal_normalized_self : (s : Str) → equal_normalized j s s ≡ true
  unfolding equal_normalized
  equal_normalized_self s = elim (Option-cases (j.canonical s)) [
    | inl text ↦ rw text (ground (arith, str_eq_refl s))
    | inr (t, json) ↦ rw json (ground (arith, str_eq_refl t))
  ]

  compared :
      (mode : Mode) (i : ℕ) (r : Record) (go : Unit {0} → Outcome (Unit {0}))
      → ((compare_output j mode i r go (mock_executor r tt)).failure ≡ (go tt).failure)
        × ((compare_output j mode i r go (mock_executor r tt)).results
            ≡ match_of r ∷ (go tt).results)
  unfolding compare_output
  compared mode i r go = rw (equal_normalized_self r.output) (refl, refl)

  -- A record that is executed or skipped, before a rest that matches.
  one_more :
      (mode : Mode) (i : ℕ) (r : Record) (rest : List Record) (go : Unit {0} → Outcome (Unit {0}))
      → ((go tt).failure ≡ none) × ((go tt).results ≡ map match_of rest)
      → let o =
          if is_executed r.decision
          then compare_output j mode i r go (mock_executor r tt)
          else add r i (match_of r) skip (go tt) in
        (o.failure ≡ none) × (o.results ≡ match_of r ∷ map match_of rest)
  one_more mode i r rest go later =
      let listed = ap (λ z. match_of r ∷ z) later.1 in
      elim (Bool-cases (is_executed r.decision)) [
        | inl runs ↦ let step = compared mode i r go in rw runs (step.0 ∙ later.0, step.1 ∙ listed)
        | inr passed ↦ rw passed (later.0, listed)
      ]

  -- Each record is reported as a match, and there is no error, in every mode.
  replay_from-mock :
      (mode : Mode) (i : ℕ) (rs : List Record)
      → ((replay_from j mode mock_executor i rs tt).failure ≡ none)
        × ((replay_from j mode mock_executor i rs tt).results ≡ map match_of rs)
  unfolding replay_from
  replay_from-mock mode i [] = (refl, refl)
  replay_from-mock dry_run i (r ∷ rest) =
      let later = replay_from-mock dry_run (i + 1) rest in
      (later.0, ap (λ z. match_of r ∷ z) later.1)
  replay_from-mock strict i (r ∷ rest) =
      one_more strict i r rest (replay_from j strict mock_executor (i + 1) rest)
        (replay_from-mock strict (i + 1) rest)
  replay_from-mock observe i (r ∷ rest) =
      one_more observe i r rest (replay_from j observe mock_executor (i + 1) rest)
        (replay_from-mock observe (i + 1) rest)

abbrev pub all_matched : ℕ → Summary
all_matched n = record { matched = n; diverged = 0; errored = 0 }

summary-matches : (rs : List Record) → summary (map match_of rs) ≡ all_matched (length rs)
unfolding summary count_one
summary-matches [] = refl
summary-matches (r ∷ rest) = ground (arith, summary-matches rest)

-- A trace that LoadAll returns has an intact chain.
load_all-intact :
    (c : Codec) (file : Result Str) (rs : List Record)
    → load_all c file ≡ (rs, none)
    → verify_chain c rs ≡ none
unfolding load_all checked
load_all-intact c (err e) rs h = cc (ap (λ z. z.1) h)
load_all-intact c (ok text) rs h = verified (read_all c text) h
  where
    verified :
        (x : List Record × Option Error) → checked c x ≡ (rs, none) → verify_chain c rs ≡ none
    verified (recs, some e) g = cc (ap (λ z. z.1) g)
    verified (recs, none) g = elim (Option-cases (verify_chain c recs)) [
      | inl intact ↦
          let k : (recs, none) ≡ (rs, none) = rw (intact, checked) at g in
          subst (λ z. verify_chain c z ≡ none) (ap (λ z. z.0) k) intact
      | inr (p, broken) ↦ let k = rw (broken, checked) at g in cc (ap (λ z. z.1) k)
    ]

replay-mock :
    (j : Json) (c : Codec) (mode : Mode) (rs : List Record)
    → verify_chain c rs ≡ none
    → replay j mode mock_executor c rs tt ≡ replay_from j mode mock_executor 0 rs tt
unfolding replay
replay-mock j c mode rs intact = rw (intact, replay) refl

records-Loaded :
    (j : Json) (c : Codec) (mode : Mode) (r : Record) (rest : List Record)
    → verify_chain c (r ∷ rest) ≡ none
    → replay_records j c mode (r ∷ rest) ≡ (none, some (all_matched (length (r ∷ rest))))
unfolding replay_records
records-Loaded j c mode r rest intact =
    let whole = replay-mock j c mode (r ∷ rest) intact in
    let all = replay_from-mock j mode 0 (r ∷ rest) in
    λ i. (
      (ap (λ o. o.failure) whole ∙ all.0) i,
      some ((ap (λ o. summary o.results) whole ∙ ap summary all.1 ∙ summary-matches (r ∷ rest)) i),
    )

-- Without and with each of its flags, `replay` returns no error for a trace that LoadAll accepts, and where
-- the trace is not empty it counts every record as a match, since its executor returns what was recorded.
pub run_replay-Loaded :
    (j : Json) (c : Codec) (file : Result Str) (r : Record) (rest : List Record)
    (observing dry : Bool)
    → load_all c file ≡ (r ∷ rest, none)
    → run_replay j c file observing dry ≡ (none, some (all_matched (length (r ∷ rest))))
unfolding run_replay loaded
run_replay-Loaded j c file r rest observing dry h =
    ap (loaded j c (mode_of observing dry)) h
    ∙ records-Loaded j c (mode_of observing dry) r rest (load_all-intact c file (r ∷ rest) h)

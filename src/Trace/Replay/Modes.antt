-- ===== src/Trace/Replay/Modes.antt =====
-- What Replay of pkg/trace/replay.go does in its modes, whatever the executor answers.
use proxclt.Base.{
  ℕ, ◌+◌, Str, itoa, Bool-cases, none, some, List, [], ◌∷◌, map, Error, Result, ok, err, ◌≡◌, inl,
  inr, refl, ap, wrapf,
}
use proxclt.Trace.Schema.{Record, Codec, verify_chain}
use proxclt.Trace.Replay.{
  Mode, observe, dry_run, StepResult, Outcome, Json, match_of, failure_of, difference_of,
  compare_output, replay_from, replay, is_executed, equal_normalized,
}

module _ {W : Type 0} (j : Json) (exec : Record → W → Result Str × W) where
  dry_run-results :
      (i : ℕ) (rs : List Record) (w : W)
      → (replay_from j dry_run exec i rs w).results ≡ map match_of rs
  unfolding replay_from
  dry_run-results i [] w = refl
  dry_run-results i (r ∷ rs) w =
      ap (λ (x : List StepResult). match_of r ∷ x) (dry_run-results (i + 1) rs w)

  dry_run-world :
      (i : ℕ) (rs : List Record) (w : W)
      → ((replay_from j dry_run exec i rs w).world ≡ w)
        × ((replay_from j dry_run exec i rs w).failure ≡ none)
  unfolding replay_from
  dry_run-world i [] w = (refl, refl)
  dry_run-world i (r ∷ rs) w = dry_run-world (i + 1) rs w

  -- A dry run of a trace with an intact chain executes nothing, whatever the executor would do: the
  -- world stays as it is, no error is returned, and every record is reported as a match.
  pub dry_run_executes_nothing :
      (c : Codec) (rs : List Record) (w : W)
      → verify_chain c rs ≡ none
      → ((replay j dry_run exec c rs w).world ≡ w)
        × ((replay j dry_run exec c rs w).failure ≡ none)
        × ((replay j dry_run exec c rs w).results ≡ map match_of rs)
  unfolding replay
  dry_run_executes_nothing c rs w h =
      rw (h, replay) ((dry_run-world 0 rs w).0, (dry_run-world 0 rs w).1, dry_run-results 0 rs w)

  -- In every mode a trace whose chain is broken is refused before anything is executed.
  pub broken_chain_refused :
      (mode : Mode) (c : Codec) (rs : List Record) (w : W) (i : ℕ) (e : Error)
      → verify_chain c rs ≡ some (i, e)
      → ((replay j mode exec c rs w).world ≡ w)
        × ((replay j mode exec c rs w).results ≡ [])
        × ((replay j mode exec c rs w).failure
            ≡ some (wrapf "replay: chain verification failed at record %d" (itoa i ∷ []) e))
  unfolding replay
  broken_chain_refused mode c rs w i e h = rw (h, replay) (refl, refl, refl)

  abbrev pub step_ids : List StepResult → List Str
  step_ids rs = map (λ (s : StepResult). s.step_id) rs

  observe-step :
      (i : ℕ) (r : Record) (go : W → Outcome W) (a : Result Str × W)
      → (res : StepResult) × (res.step_id ≡ r.step_id)
        × ((compare_output j observe i r go a).results ≡ res ∷ (go a.1).results)
        × ((compare_output j observe i r go a).failure ≡ (go a.1).failure)
  unfolding compare_output
  observe-step i r go (err e, w) = (failure_of r e, refl, refl, refl)
  observe-step i r go (ok got, w) = elim (Bool-cases (equal_normalized j got r.output)) [
    | inl same ↦ (match_of r, refl, rw same, rw same)
    | inr other ↦ (difference_of r got, refl, rw other, rw other)
  ]

  observe-from :
      (i : ℕ) (rs : List Record) (w : W)
      → ((replay_from j observe exec i rs w).failure ≡ none)
        × (step_ids (replay_from j observe exec i rs w).results
            ≡ map (λ (r : Record). r.step_id) rs)
  unfolding replay_from
  observe-from i [] w = (refl, refl)
  observe-from i (r ∷ rs) w = elim (Bool-cases (is_executed r.decision)) [
    | inr plain ↦
        let ih = observe-from (i + 1) rs w in
        (rw plain ih.0, rw plain (ap (λ (x : List Str). r.step_id ∷ x) ih.1))
    | inl real ↦
        let (res, same, results, failure) =
          observe-step i r (replay_from j observe exec (i + 1) rs) (exec r w) in
        let ih = observe-from (i + 1) rs (exec r w).1 in
        (
          rw (real, failure) ih.0,
          rw (real, results) (rw same (ap (λ (x : List Str). r.step_id ∷ x) ih.1)),
        )
  ]

  -- Observing a trace with an intact chain never returns an error, also where the executor fails or
  -- its output differs, and reports one result for each record, in the order of the trace.
  pub observe_reports_all :
      (c : Codec) (rs : List Record) (w : W)
      → verify_chain c rs ≡ none
      → ((replay j observe exec c rs w).failure ≡ none)
        × (step_ids (replay j observe exec c rs w).results ≡ map (λ (r : Record). r.step_id) rs)
  unfolding replay
  observe_reports_all c rs w h = rw (h, replay) (observe-from 0 rs w)

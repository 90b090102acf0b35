-- ===== src/Trace/Replay.antt =====
-- pkg/trace/replay.go: walking a trace and re-executing its tool calls.
pub mod Modes
pub mod Strict
use proxclt.Base.{
  ℕ, ◌+◌, Str, str_eq, is_empty, itoa, Bool, true, false, if◌then◌else◌, ◌&&◌, Option, none, some,
  List, [], ◌∷◌, ◌++◌, Error, errorf, wrapf, Result, ok, err,
}
use proxclt.Trace.Schema.{
  Record, Decision, executed, skipped, denied, failed, other, Codec, verify_chain,
}

pub data Mode : Type 0 where
  strict observe dry_run : Mode

-- What is reported of one record.
pub record StepResult : Type 0 where
  pub step_id : Str
  pub tool : Str
  pub matched : Bool
  pub diff : List Str
  pub exec_err : Option Error
  pub diverged : Bool

-- The first word of a line of the log.
pub data Verdict : Type 0 where
  would_run skip fail same differs : Verdict

pub record LogLine : Type 0 where
  pub index : ℕ
  pub verdict : Verdict
  pub step_id : Str
  pub tool : Str

pub record Outcome (W : Type 0) : Type 0 where
  pub results : List StepResult
  pub log : List LogLine
  pub failure : Option Error
  pub world : W

unfoldable pub is_executed : Decision → Bool
is_executed executed = true
is_executed skipped = false
is_executed denied = false
is_executed failed = false
is_executed (other s) = false

abbrev pub match_of : Record → StepResult
match_of r = record {
  step_id = r.step_id;
  tool = r.tool;
  matched = true;
  diff = [];
  exec_err = none;
  diverged = false;
}

abbrev pub failure_of : Record → Error → StepResult
failure_of r e = record {
  step_id = r.step_id;
  tool = r.tool;
  matched = false;
  diff = [];
  exec_err = some e;
  diverged = true;
}

abbrev pub difference_of : Record → Str → StepResult
difference_of r got = record {
  step_id = r.step_id;
  tool = r.tool;
  matched = false;
  diff = r.output ∷ got ∷ [];
  exec_err = none;
  diverged = true;
}

-- A JSON text decoded and encoded again; `none` where it is no JSON.
pub record Json : Type 0 where
  pub canonical : Str → Option Str

module _ (j : Json) where
  compare_canonical : Str → Str → Option Str → Option Str → Bool
  compare_canonical a b none bv = str_eq a b
  compare_canonical a b (some an) none = str_eq a b
  compare_canonical a b (some an) (some bn) = str_eq an bn

  unfoldable pub equal_normalized : Str → Str → Bool
  unfolding compare_canonical
  equal_normalized a b =
      if is_empty a && is_empty b
      then true
      else compare_canonical a b (j.canonical a) (j.canonical b)

module _ {W : Type 0} where
  -- `append` to the results and to the log, and the rest of the loop.
  abbrev pub add : Record → ℕ → StepResult → Verdict → Outcome W → Outcome W
  add r i res v o = record o {
    results = res ∷ o.results;
    log = record { index = i; verdict = v; step_id = r.step_id; tool = r.tool } ∷ o.log;
  }

  -- The loop ends with an error.
  abbrev pub stop : Record → ℕ → StepResult → Verdict → Error → W → Outcome W
  stop r i res v e w =
      add r i res v (record { results = []; log = []; failure = some e; world = w })

  module _ (j : Json) (mode : Mode) where
    -- What the loop does with the answer of the executor; `go` is the rest of the loop.
    unfoldable pub compare_output : ℕ → Record → (W → Outcome W) → Result Str × W → Outcome W
    compare_output i r go (err e, w) = elim mode [
      | strict ↦
          stop r i (failure_of r e) fail
            (wrapf "replay: exec failed at record %d (%s)" (itoa i ∷ r.step_id ∷ []) e) w
      | _ ↦ add r i (failure_of r e) fail (go w)
    ]
    compare_output i r go (ok got, w) =
        if equal_normalized j got r.output then add r i (match_of r) same (go w) else (elim mode [
          | strict ↦
              stop r i (difference_of r got) differs
                (errorf "replay: output divergence at record %d (%s)" (itoa i ∷ r.step_id ∷ [])) w
          | _ ↦ add r i (difference_of r got) differs (go w)
        ])

    module _ (exec : Record → W → Result Str × W) where
      -- The loop of Replay from index `i` on.
      unfoldable pub replay_from : ℕ → List Record → W → Outcome W
      replay_from i [] w = record { results = []; log = []; failure = none; world = w }
      replay_from i (r ∷ rest) w =
          let go = replay_from (i + 1) rest in
          elim mode [
            | dry_run ↦ add r i (match_of r) would_run (go w)
            | _ ↦
                if is_executed r.decision
                then compare_output i r go (exec r w)
                else add r i (match_of r) skip (go w)
          ]

      unfoldable pub replay : Codec → List Record → W → Outcome W
      replay c records w = elim (verify_chain c records) [
        | some (i, e) ↦ record {
          results = [];
          log = [];
          failure = some (wrapf "replay: chain verification failed at record %d" (itoa i ∷ []) e);
          world = w;
        }
        | none ↦ replay_from 0 records w
      ]

-- ===== src/Root/Replay.antt =====
-- internal/root/replay.go: the command `replay`, with the executor that it uses.
pub mod Unchanged
use proxclt.Base.{
  ℕ, ◌+◌, Str, Bool, true, false, if◌then◌else◌, Option, none, some, List, [], ◌∷◌, Error, wrapf,
  Result, ok, err,
}
use proxclt.Trace.Schema.{Record, Codec}
use proxclt.Trace.Reader.{load_all}
use proxclt.Trace.Replay.{Mode, strict, observe, dry_run, StepResult, Outcome, Json, replay}

-- The executor of mockReplayExecutor, which returns what was recorded.
abbrev pub mock_executor : Record → Unit {0} → Result Str × Unit {0}
mock_executor rec u = (ok rec.output, u)

pub record Summary : Type 0 where
  pub matched : ℕ
  pub diverged : ℕ
  pub errored : ℕ

count_one : Bool → Option Error → Summary → Summary
count_one differs (some e) s = record s { errored = s.errored + 1 }
count_one true none s = record s { diverged = s.diverged + 1 }
count_one false none s = record s { matched = s.matched + 1 }

unfoldable pub summary : List StepResult → Summary
unfolding count_one
summary [] = record { matched = 0; diverged = 0; errored = 0 }
summary (r ∷ rest) = count_one r.diverged r.exec_err (summary rest)

unfoldable pub mode_of : Bool → Bool → Mode
mode_of observing dry = if dry then dry_run else if observing then observe else strict

module _ (j : Json) (c : Codec) where
  replay_records : Mode → List Record → Option Error × Option Summary
  unfolding summary replay
  replay_records mode [] = (none, none)
  replay_records mode (r ∷ rest) =
      let o = replay j mode mock_executor c (r ∷ rest) tt in (o.failure, some (summary o.results))

  loaded : Mode → List Record × Option Error → Option Error × Option Summary
  unfolding replay_records
  loaded mode (records, some e) = (some (wrapf "replay: load trace: %w" [] e), none)
  loaded mode (records, none) = replay_records mode records

  -- runReplay: its error, and the numbers of the summary where it prints one. `file` is what opening
  -- and reading the trace gives.
  unfoldable pub run_replay : Result Str → Bool → Bool → Option Error × Option Summary
  unfolding load_all loaded mode_of
  run_replay file observing dry = loaded (mode_of observing dry) (load_all c file)

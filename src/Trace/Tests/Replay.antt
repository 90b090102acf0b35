-- ===== src/Trace/Tests/Replay.antt =====
-- Replays of the chain of two records.
use proxclt.Base.{
  ℕ, zero, suc, ◌+◌, Str, str_eq, is_empty, none, some, List, [], ◌∷◌, errorf, itoa, Result, ok,
  ◌≡◌, ◌↔◌, refl,
}
use proxclt.Trace.Schema.{Record}
use proxclt.Trace.Replay.{
  Json, strict, equal_normalized, is_executed, compare_output, replay_from, replay,
}
use proxclt.Trace.Replay.Strict.{
  Reproduces, strict_iff_Reproduces, StopsAt, strict-StopsAt_divergence,
}
use proxclt.Trace.Tests.Codec.{toy_codec}
use proxclt.Trace.Tests.Chain.{first, second, chain_accepted}

abbrev trace : List Record
trace = first ∷ second ∷ []

-- Every text is its own normal form.
abbrev plain : Json
plain = record { canonical = some }

-- An executor that counts its calls and answers the empty output.
abbrev counting : Record → ℕ → Result Str × ℕ
counting r n = (ok [], n + 1)

-- An executor whose output differs from the second call on.
abbrev drifting : Record → ℕ → Result Str × ℕ
drifting r n = (ok (elim n [ zero ↦ [] | suc m ↦ 33 ∷ [] ]), n + 1)

strict_iff_Reproduces_example :
    ((replay plain strict counting toy_codec trace 0).failure ≡ none)
    ↔ Reproduces plain counting trace 0 (replay plain strict counting toy_codec trace 0).world
strict_iff_Reproduces_example =
    strict_iff_Reproduces plain counting toy_codec trace 0 chain_accepted

drifting_fails :
    (replay_from plain strict drifting 0 trace 0).failure
    ≡ some (errorf "replay: output divergence at record %d (%s)" (itoa 1 ∷ [] ∷ []))
unfolding replay_from compare_output is_executed equal_normalized is_empty str_eq
drifting_fails = refl

drift_reported :
    (replay plain strict drifting toy_codec trace 0).failure
    ≡ some (errorf "replay: output divergence at record %d (%s)" (itoa 1 ∷ [] ∷ []))
unfolding replay
drift_reported = rw (chain_accepted, replay) drifting_fails

strict-StopsAt_divergence_example :
    StopsAt plain drifting (replay plain strict drifting toy_codec trace 0).results
strict-StopsAt_divergence_example =
    strict-StopsAt_divergence plain drifting toy_codec trace 0
      (errorf "replay: output divergence at record %d (%s)" (itoa 1 ∷ [] ∷ [])) chain_accepted
      drift_reported

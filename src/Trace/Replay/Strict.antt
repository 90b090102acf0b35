-- ===== src/Trace/Replay/Strict.antt =====
-- What the strict mode of Replay in pkg/trace/replay.go establishes.
use proxclt.Base.{
  ℕ, ◌+◌, Str, true, false, Bool-cases, none, some, List, [], ◌∷◌, ◌++◌, Error, Result, ok, err,
  ◌≡◌, ◌↔◌, inl, inr, refl, ap, All,
}
use proxclt.Trace.Schema.{Record, Codec, verify_chain}
use proxclt.Trace.Replay.{
  strict, StepResult, Outcome, Json, match_of, failure_of, difference_of, compare_output,
  replay_from, replay, is_executed, equal_normalized,
}

module _ {W : Type 0} (j : Json) (exec : Record → W → Result Str × W) where
  -- Every record that was executed, and no other, is executed again in order, and each gives the
  -- output that was recorded.
  pub data Reproduces : List Record → W → W → Type 0 where
    done : {w : W} → Reproduces [] w w
    passed_over :
        {r : Record} {rest : List Record} {w w' : W}
        → is_executed r.decision ≡ false
        → Reproduces rest w w'
        → Reproduces (r ∷ rest) w w'
    executed_again :
        {r : Record} {rest : List Record} {w w₁ w' : W} (got : Str)
        → is_executed r.decision ≡ true
        → exec r w ≡ (ok got, w₁)
        → equal_normalized j got r.output ≡ true
        → Reproduces rest w₁ w'
        → Reproduces (r ∷ rest) w w'

  Reproduces-replay_from :
      {rs : List Record} {w w' : W}
      → Reproduces rs w w'
      → (i : ℕ)
      → ((replay_from j strict exec i rs w).failure ≡ none)
        × ((replay_from j strict exec i rs w).world ≡ w')
  unfolding replay_from compare_output
  Reproduces-replay_from done i = (refl, refl)
  Reproduces-replay_from (passed_over plain rest) i = rw plain (Reproduces-replay_from rest (i + 1))
  Reproduces-replay_from (executed_again got real ran same rest) i =
      rw (real, ran, same) (Reproduces-replay_from rest (i + 1))

  -- One record that does not end the loop.
  continued :
      (i : ℕ) (r : Record) (go : W → Outcome W) (a : Result Str × W)
      → (compare_output j strict i r go a).failure ≡ none
      → (got : Str) × (a.0 ≡ ok got)
        × (equal_normalized j got r.output ≡ true)
        × ((go a.1).failure ≡ none)
        × ((compare_output j strict i r go a).world ≡ (go a.1).world)
  unfolding compare_output
  continued i r go (err e, w) h = cc
  continued i r go (ok got, w) h = elim (Bool-cases (equal_normalized j got r.output)) [
    | inl same ↦ (got, refl, same, rw (same, compare_output) at h, rw same)
    | inr other ↦ let bad = rw (other, compare_output) at h in cc bad
  ]

  replay_from-Reproduces :
      (i : ℕ) (rs : List Record) (w : W)
      → (replay_from j strict exec i rs w).failure ≡ none
      → Reproduces rs w (replay_from j strict exec i rs w).world
  unfolding replay_from
  replay_from-Reproduces i [] w h = done
  replay_from-Reproduces i (r ∷ rest) w h = elim (Bool-cases (is_executed r.decision)) [
    | inr plain ↦
        rw plain
          (passed_over plain (replay_from-Reproduces (i + 1) rest w (rw (plain, replay_from) at h)))
    | inl real ↦
        let go : W → Outcome W = replay_from j strict exec (i + 1) rest in
        let (got, ran, same, more, worlds) =
          continued i r go (exec r w) (rw (real, replay_from) at h) in
        rw (real, worlds)
          (executed_again got real (λ k. (ran k, (exec r w).1)) same
            (replay_from-Reproduces (i + 1) rest (exec r w).1 more))
  ]

  -- Strict replay of a trace with an intact chain returns no error exactly when the executor, run on
  -- the executed records in order, gives the recorded output each time.
  pub strict_iff_Reproduces :
      (c : Codec) (rs : List Record) (w : W)
      → verify_chain c rs ≡ none
      → ((replay j strict exec c rs w).failure ≡ none)
        ↔ Reproduces rs w (replay j strict exec c rs w).world
  unfolding replay
  strict_iff_Reproduces c rs w h =
      rw (h, replay) (replay_from-Reproduces 0 rs w, λ d. (Reproduces-replay_from d 0).0)

  -- The results of a loop that ended at a divergence.
  pub record StopsAt (results : List StepResult) : Type 0 where
    pub before : List StepResult
    pub last : StepResult
    pub split : results ≡ before ++ last ∷ []
    pub all_matched : All (λ s. s.matched ≡ true) before
    pub last_diverged : last.diverged ≡ true

  StopsAt-cons :
      (s : StepResult) (rs : List StepResult) → s.matched ≡ true → StopsAt rs → StopsAt (s ∷ rs)
  StopsAt-cons s rs m x = record {
    before = s ∷ x.before;
    last = x.last;
    split = ap (λ (l : List StepResult). s ∷ l) x.split;
    all_matched = (m, x.all_matched);
    last_diverged = x.last_diverged;
  }

  StopsAt-one : (s : StepResult) → s.diverged ≡ true → StopsAt (s ∷ [])
  StopsAt-one s d = record {
    before = [];
    last = s;
    split = refl;
    all_matched = tt;
    last_diverged = d;
  }

  stopped :
      (i : ℕ) (r : Record) (go : W → Outcome W) (a : Result Str × W) (e : Error)
      → ((w : W) → (go w).failure ≡ some e → StopsAt (go w).results)
      → (compare_output j strict i r go a).failure ≡ some e
      → StopsAt (compare_output j strict i r go a).results
  unfolding compare_output
  stopped i r go (err x, w) e ih h = StopsAt-one (failure_of r x) refl
  stopped i r go (ok got, w) e ih h = elim (Bool-cases (equal_normalized j got r.output)) [
    | inl same ↦
        rw same
          (StopsAt-cons (match_of r) (go w).results refl (ih w (rw (same, compare_output) at h)))
    | inr other ↦ rw other (StopsAt-one (difference_of r got) refl)
  ]

  replay_from-StopsAt :
      (i : ℕ) (rs : List Record) (w : W) (e : Error)
      → (replay_from j strict exec i rs w).failure ≡ some e
      → StopsAt (replay_from j strict exec i rs w).results
  unfolding replay_from
  replay_from-StopsAt i [] w e h = cc
  replay_from-StopsAt i (r ∷ rest) w e h = elim (Bool-cases (is_executed r.decision)) [
    | inr plain ↦ rw plain (
        StopsAt-cons (match_of r) (replay_from j strict exec (i + 1) rest w).results refl
          (replay_from-StopsAt (i + 1) rest w e (rw (plain, replay_from) at h)))
    | inl real ↦ rw real (
        stopped i r (replay_from j strict exec (i + 1) rest) (exec r w) e
          (λ w'. replay_from-StopsAt (i + 1) rest w' e) (rw (real, replay_from) at h))
  ]

  -- Where strict replay of a trace with an intact chain returns an error, it stopped at the first
  -- divergence: the last result is a divergence, and all before it are matches.
  pub strict-StopsAt_divergence :
      (c : Codec) (rs : List Record) (w : W) (e : Error)
      → verify_chain c rs ≡ none
      → (replay j strict exec c rs w).failure ≡ some e
      → StopsAt (replay j strict exec c rs w).results
  unfolding replay
  strict-StopsAt_divergence c rs w e h f =
      rw (h, replay) (replay_from-StopsAt 0 rs w e (rw (h, replay) at f))

-- ===== src/Workflow/Tests/Nodes.antt =====
-- The pools of pkg/workflow/multi_node.go on two nodes, of which one fails.
use mathlib.Core.List.{Perm, Mem}
use proxclt.Base.{
  ◌++◌, some, Error, Str, lit, str_eq, if◌then◌else◌, List, [], ◌∷◌, errorf, wrapf, Result, ok, err,
  joined, false, ◌≡◌, ◌↔◌, refl, arith,
}
use proxclt.Workflow.Multi.{Pool, pool_of, launch, finish, Reaches, start, then_step}
use proxclt.Workflow.Multi.FailFast.{
  Group, group_of, acquire, give_up, release, GroupRun, begin, then_run, context_done, keep_first,
  returned, wait_group, Blames, group-reports,
}
use proxclt.Workflow.Multi.Concurrency.{pool-reports}

abbrev names : List Str
names = lit "a" ∷ lit "b" ∷ []

unfoldable result : Str → Result (Unit {0})
result n = if str_eq n (lit "b") then err (errorf "boom" []) else ok tt

abbrev last : Pool
last = record {
  waiting = [];
  running = [];
  finished = lit "a" ∷ lit "b" ∷ [];
  errs = wrapf "%s: %w" (lit "b" ∷ []) (errorf "boom" []) ∷ [];
}

run : Reaches 2 result (pool_of names) last
unfolding pool_of result lit str_eq
run =
    then_step
      (then_step
        (then_step (then_step start (launch (lit "a") (lit "b" ∷ []) refl (omega arith)))
          (launch (lit "b") [] refl (omega arith)))
        (finish [] (lit "b") (lit "a" ∷ []) refl))
      (finish [] (lit "a") [] refl)

pool-reports_example :
    Perm last.finished names
    × ((joined last.errs ≡ ok tt) ↔ ((n : Str) → Mem n names → result n ≡ ok tt))
pool-reports_example = pool-reports 2 result names last run refl refl

abbrev stopped : Group
stopped = record {
  queued = [];
  holding = [];
  applied = lit "b" ∷ [];
  skipped = lit "a" ∷ [];
  first = some (wrapf "%s: %w" (lit "b" ∷ []) (errorf "boom" []));
  interrupted = false;
}

group_run : GroupRun 1 result (group_of names) stopped
unfolding group_of result lit str_eq context_done keep_first returned
group_run =
    then_run
      (then_run (then_run begin (acquire (lit "a" ∷ []) (lit "b") [] refl (omega arith)))
        (release [] (lit "b") [] (result (lit "b")) refl (λ _. refl)))
      (give_up [] (lit "a") [] refl refl)

group-reports_example :
    Perm (stopped.applied ++ stopped.skipped) names
    × (((wait_group stopped ≡ ok tt) ↔ ((n : Str) → Mem n names → result n ≡ ok tt))
        × ((e : Error) → wait_group stopped ≡ err e → Blames 1 result names e))
group-reports_example = group-reports 1 result names stopped group_run refl refl refl

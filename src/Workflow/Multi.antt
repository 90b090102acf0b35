-- ===== src/Workflow/Multi.antt =====
-- pkg/workflow/multi_node.go, and Finalize of all nodes in finalize.go: the operations that visit
-- the nodes one after the other, and the pool of Apply, whose goroutines are steps in any order.
pub mod Concurrency
pub mod FailFast
use proxclt.Base.{
  sort_strings, ℕ, zero, suc, ◌==◌, ltb, leb, ◌<◌, Str, lit, str_eq, Bool, true, false, not, ◌&&◌,
  if◌then◌else◌, Option, none, some, List, [], ◌∷◌, ◌++◌, map, length, Error, errorf, wrapf, Result,
  ok, err, joined, ◌≡◌,
}
use mathlib.Core.List.{reverse}
use proxclt.Config.Model.{Dict, Node, Hypervisor, EnvSpec, Env, resolved}
use proxclt.World.{Event, Host, Action, return, ◌>>=◌, ◌>>◌, within, printed}
use proxclt.Workflow.Options.{SingleVm}
use proxclt.Workflow.Plan.{Change, plan}
use proxclt.Workflow.Finalize.{finalize}
use proxclt.Workflow.Apply.{warning, apply, rollback, down}

pub record MultiNode : Type 0 where
  pub config : Option Env
  pub has_client : Bool
  pub has_renderer : Bool
  pub has_builder : Bool
  pub dry_run : Bool
  pub max_concurrency : ℕ
  pub continue_on_error : Bool
  pub skip_kickstart_build : Bool
  pub skip_finalize : Bool
  pub skip_ssh_wait : Bool
  pub ssh_port : ℕ

unfoldable pub keys {ℓ} : {V : Type ℓ} → Dict V → List Str
keys [] = []
keys ((k, v) ∷ rest) = k ∷ keys rest

unfoldable pub names_of : Error → Option Hypervisor → Result (List Str)
unfolding keys
names_of unresolved none = err unresolved
names_of unresolved (some hyp) = ok (sort_strings (keys hyp.nodes))

unfoldable pub names_in : Error → Error → Option Env → Result (List Str)
unfolding names_of
names_in missing unresolved none = err missing
names_in missing unresolved (some env) = names_of unresolved (resolved env.spec.hypervisor)

-- MultiNodeWorkflow.nodeNames
unfoldable pub node_names : MultiNode → Result (List Str)
unfolding names_in
node_names m =
    names_in (errorf "multi-node: Config is nil" [])
      (errorf "multi-node: hypervisor not resolved" []) m.config

-- nodesForFinalize
unfoldable pub nodes_for_finalize : MultiNode → Result (List Str)
unfolding names_in
nodes_for_finalize m =
    names_in (errorf "finalize: Config is nil" []) (errorf "finalize: hypervisor not resolved" [])
      m.config

unfoldable pub per_node : MultiNode → Str → SingleVm
per_node m name = record {
  config = m.config;
  node_name = name;
  has_client = m.has_client;
  has_renderer = m.has_renderer;
  has_builder = m.has_builder;
  dry_run = m.dry_run;
  skip_kickstart_build = m.skip_kickstart_build;
  skip_finalize = m.skip_finalize;
  skip_ssh_wait = m.skip_ssh_wait;
  ssh_port = m.ssh_port;
}

unfoldable pub max_concurrency_of : MultiNode → ℕ
max_concurrency_of m = if ltb 0 m.max_concurrency then m.max_concurrency else 4

unfoldable pub plan_nodes : MultiNode → List Str → Action (Dict (List Change))
unfolding per_node
plan_nodes m [] = return (ok [])
plan_nodes m (name ∷ rest) = do
  chs ← within "plan %s: %w" (name ∷ []) (plan (per_node m name))
  later ← plan_nodes m rest
  return (ok ((name, chs) ∷ later))

-- MultiNodeWorkflow.Plan
unfoldable pub plan_all : MultiNode → Action (Dict (List Change))
unfolding node_names plan_nodes
plan_all m = do names ← return (node_names m); plan_nodes m names

abbrev pub failure_at : Str → Result (Unit {0}) → List Error
failure_at name (ok u) = []
failure_at name (err e) = wrapf "%s: %w" (name ∷ []) e ∷ []

-- A call for each node, whatever the others return: the errors, each with its node.
unfoldable pub each :
    (Str → Action (Unit {0})) → List Str → Host → List Event → List Error × List Event
each call [] host hist = ([], hist)
each call (name ∷ rest) host hist =
    let (r, next) = call name host hist in
    let (errs, last) = each call rest host next in (failure_at name r ++ errs, last)

unfoldable pub joining : (Str → Action (Unit {0})) → List Str → Action (Unit {0})
unfolding each
joining call names host hist = let (errs, last) = each call names host hist in (joined errs, last)

-- MultiNodeWorkflow.Rollback and Down, in the reverse order of the names.
unfoldable pub rollback_all : MultiNode → Action (Unit {0})
unfolding node_names per_node joining
rollback_all m = do
  names ← return (node_names m)
  joining (λ name. rollback (per_node m name)) (reverse names)

unfoldable pub down_all : MultiNode → Bool → Action (Unit {0})
unfolding node_names per_node joining
down_all m force = do
  names ← return (node_names m)
  joining (λ name. down (per_node m name) force) (reverse names)

-- MultiNodeWorkflow.Finalize
unfoldable pub finalize_all : MultiNode → Action (Unit {0})
unfolding nodes_for_finalize per_node joining
finalize_all m = do
  names ← return (nodes_for_finalize m)
  joining (λ name. finalize (per_node m name)) names

-- The dry run of Up: the nodes of the plan in the order in which a `range` visits them.
unfoldable pub apply_dry : MultiNode → Dict (List Change) → Action (Unit {0})
unfolding per_node
apply_dry m [] = return (ok tt)
apply_dry m ((name, chs) ∷ rest) = do
  within "%s: %w" (name ∷ []) (apply (per_node m name) chs)
  apply_dry m rest

-- One run of the goroutines of applyPlan and one of those of Verify. `Pool` and its steps below, and
-- those of Workflow.Multi.FailFast, are the ways in which they may run.
pub record Runs : Type 0 where
  pub apply_plan : MultiNode → Dict (List Change) → Action (Unit {0})
  pub verify_all : MultiNode → Action (Unit {0})

-- MultiNodeWorkflow.Up
unfoldable pub up_all : Runs → MultiNode → Action (Unit {0})
unfolding plan_all apply_dry finalize_all
up_all runs m = do
  chs ← plan_all m
  if m.dry_run
      then apply_dry m chs
      else runs.apply_plan m chs
        >> warning (runs.verify_all m)
        >> (if not m.skip_finalize && not m.dry_run
            then within "finalize: %w" [] (finalize_all m)
            else return (ok tt))

-- The goroutines of applyPlan where ContinueOnError is set: the names that the loop has yet to
-- start, those that hold the semaphore, those that are done, the latest first, and `errs`.
pub record Pool : Type 0 where
  pub waiting : List Str
  pub running : List Str
  pub finished : List Str
  pub errs : List Error

unfoldable pub pool_of : List Str → Pool
pool_of names = record { waiting = names; running = []; finished = []; errs = [] }

-- The loop starts the next goroutine while the semaphore has room, or a goroutine ends, with the
-- result of its node.
pub data Step (cap : ℕ) (result : Str → Result (Unit {0})) (p : Pool) : Pool → Type 0 where
  launch :
      (n : Str) (rest : List Str)
      → p.waiting ≡ n ∷ rest
      → length p.running < cap
      → Step cap result p (record p { waiting = rest; running = n ∷ p.running })
  finish :
      (before : List Str) (n : Str) (after : List Str)
      → p.running ≡ before ++ n ∷ after
      → Step cap result p (record p {
        running = before ++ after;
        finished = n ∷ p.finished;
        errs = p.errs ++ failure_at n (result n);
      })

pub data Reaches (cap : ℕ) (result : Str → Result (Unit {0})) (p : Pool) : Pool → Type 0 where
  start : Reaches cap result p p
  then_step : {q r : Pool} → Reaches cap result p q → Step cap result q r → Reaches cap result p r

-- ===== src/Root/Workflow.antt =====
-- internal/root/workflow.go: the commands on all nodes of a manifest, or on the one that --node names.
-- What they print of a result is the result here.
use proxclt.Base.{
  ℕ, ltb, length, Str, lit, is_empty, ◌&&◌, Bool, true, false, not, if◌then◌else◌, Option, none,
  some, List, [], ◌∷◌, errorf, Error, Result, ok, err, refuse_if, require,
}
use proxclt.Config.Model.{Dict, Node, Hypervisor, Env, resolved}
use proxclt.World.{Action, return, ◌>>=◌, ◌>>◌, changing}
use proxclt.Proxmox.Vm.{Vm, get_vm}
use proxclt.Workflow.Options.{SingleVm}
use proxclt.Workflow.Plan.{Change, plan}
use proxclt.Workflow.Apply.{up, down, verify}
use proxclt.Workflow.Finalize.{finalize}
use proxclt.Workflow.Multi.{MultiNode, Runs, plan_all, up_all, down_all, finalize_all}
use proxclt.Root.Process.{Process, load_env_manifest, load_proxmox_client}
use proxclt.Root.Vm.{need_yes}

-- The flags of the commands. How long finalize may wait is a part of the Host.
pub record WorkflowFlags : Type 0 where
  pub node : Str
  pub bootloader_dir : Str
  pub force : Bool
  pub dry_run : Bool
  pub max_concurrency : ℕ
  pub continue_on_error : Bool
  pub skip_kickstart_build : Bool
  pub skip_finalize : Bool

unfoldable pub has_many : Option Hypervisor → Bool
has_many none = false
has_many (some hyp) = ltb 1 (length hyp.nodes)

-- isMultiNode
unfoldable pub is_multi_node : Env → Bool
unfolding has_many resolved
is_multi_node env = has_many (resolved env.spec.hypervisor)

-- The env, after the renderer was loaded; whether a builder is made is known from the flags.
abbrev load_common : Process → Action Env
load_common p = do env ← return (load_env_manifest p []); return p.renderer; return (ok env)

abbrev node_required : Error
node_required = errorf "--node required for single-node workflow" []

unfoldable pub make_single : WorkflowFlags → Env → SingleVm
unfolding is_empty
make_single f env = record {
  config = some env;
  node_name = f.node;
  has_client = true;
  has_renderer = true;
  has_builder = not (is_empty f.bootloader_dir);
  dry_run = f.dry_run;
  skip_kickstart_build = f.skip_kickstart_build;
  skip_finalize = f.skip_finalize;
  skip_ssh_wait = false;
  ssh_port = 0;
}

unfoldable pub make_multi : WorkflowFlags → Env → MultiNode
unfolding is_empty
make_multi f env = record {
  config = some env;
  has_client = true;
  has_renderer = true;
  has_builder = not (is_empty f.bootloader_dir);
  dry_run = f.dry_run;
  max_concurrency = if ltb 0 f.max_concurrency then f.max_concurrency else 4;
  continue_on_error = f.continue_on_error;
  skip_kickstart_build = f.skip_kickstart_build;
  skip_finalize = f.skip_finalize;
  skip_ssh_wait = false;
  ssh_port = 0;
}

-- The error of loadCommon is replaced where no node is given.
abbrev hint : WorkflowFlags → Error → Error
hint f e = if is_empty f.node then node_required else e

-- All nodes, where the manifest has more than one and --node names none; the node of --node else.
abbrev pub choose {ℓ} :
    {A : Type ℓ}
    → Process
    → WorkflowFlags
    → Env
    → (MultiNode → Action A)
    → (SingleVm → Action A)
    → Action A
choose p f env on_all on_one =
    if is_multi_node env && is_empty f.node
    then return (load_proxmox_client p) >>= (λ client. on_all (make_multi f env))
    else return (refuse_if (is_empty f.node) node_required)
      >> return (load_proxmox_client p)
      >>= (λ client. on_one (make_single f env))

-- A change set, of all nodes or of one.
pub data Planned : Type 0 where
  of_all : Dict (List Change) → Planned
  of_one : List Change → Planned

unfoldable pub workflow_plan : Process → WorkflowFlags → Action Planned
unfolding load_env_manifest load_proxmox_client is_multi_node make_multi make_single plan_all plan
    is_empty
workflow_plan p f = do
  env ← changing (hint f) (load_common p)
  choose p f env (λ m. plan_all m >>= (λ chs. return (ok (of_all chs))))
      (λ w. plan w >>= (λ chs. return (ok (of_one chs))))

unfoldable pub workflow_up : Runs → Process → WorkflowFlags → Action (Unit {0})
unfolding load_env_manifest load_proxmox_client is_multi_node make_multi make_single up_all up
    is_empty
workflow_up runs p f = do env ← changing (hint f) (load_common p); choose p f env (up_all runs) up

abbrev down_hint : Process → WorkflowFlags → Error → Error
down_hint p f e =
    if is_empty f.node
    then node_required
    else if not p.assume_yes
    then errorf "refusing to down without --yes" []
    else e

unfoldable pub workflow_down : Process → WorkflowFlags → Action (Unit {0})
unfolding load_env_manifest load_proxmox_client is_multi_node make_multi make_single down_all down
    is_empty
workflow_down p f = do
  env ← changing (down_hint p f) (load_common p)
  need_yes p "refusing to down without --yes"
  choose p f env (λ m. down_all m f.force) (λ w. down w f.force)

-- The status of a VM, or that there is none where it cannot be read.
abbrev status_of : Result Vm → Str
status_of (ok vm) = vm.status
status_of (err e) = lit "absent"

abbrev status_row : Str → Node → Action Vm → Action (Str × Node × Str)
status_row name n call host hist =
    let (r, after) = call host hist in (ok (name, n, status_of r), after)

unfoldable pub status_rows : Dict Node → Action (List (Str × Node × Str))
unfolding get_vm lit
status_rows [] = return (ok [])
status_rows ((name, n) ∷ rest) = do
  row ← status_row name n (get_vm n.proxmox.node_name n.proxmox.vmid)
  later ← status_rows rest
  return (ok (row ∷ later))

unfoldable pub workflow_status : Process → Action (List (Str × Node × Str))
unfolding load_env_manifest load_proxmox_client resolved status_rows
workflow_status p = do
  env ← return (load_env_manifest p [])
  client ← return (load_proxmox_client p)
  hyp ← return (require (errorf "hypervisor not resolved" []) (resolved env.spec.hypervisor))
  status_rows hyp.nodes

unfoldable pub workflow_verify : Runs → Process → WorkflowFlags → Action (Unit {0})
unfolding load_env_manifest load_proxmox_client is_multi_node make_multi make_single verify is_empty
workflow_verify runs p f = do
  env ← changing (hint f) (load_common p)
  choose p f env runs.verify_all verify

unfoldable pub workflow_finalize : Process → WorkflowFlags → Action (Unit {0})
unfolding load_env_manifest load_proxmox_client is_multi_node make_multi make_single finalize_all
    finalize is_empty
workflow_finalize p f = do
  env ← changing (hint f) (load_common p)
  choose p f env finalize_all finalize

-- ===== src/Workflow/Tests/Hosts.antt =====
-- Outsides and workflows for the runs of pkg/workflow.
use proxclt.Base.{
  Str, String, lit, str_eq, Bool, true, false, if◌then◌else◌, Option, none, some, List, [], ◌∷◌,
  Error, errorf, ok, is_empty, ◌≡◌, refl, arith,
}
use proxclt.World.{get, post, put, delete, Method, Body}
use proxclt.Config.Validate.{value_at}
use proxclt.Proxmox.Client.{
  answer, data_of, as_upid, poll, call, as_task, task_fields, finished, exit_of,
}
use proxclt.Proxmox.Client.Wait.{polled, StillRunning}
use proxclt.Proxmox.Accepted.{Accepts, is_get, requested}
use proxclt.Config.Model.{Node, IsoConfig, Value, null, string, mapping, end, field, Env}
use proxclt.Config.Tests.Rules.{env_of, hypervisor_of, node, disk, nic, cluster, inline_of}
use proxclt.World.{
  Event, request, rendered, built, removed, probed, slept, printed, Reply, replied, Envelope, Host,
}
use proxclt.Workflow.Options.{SingleVm, Target}

abbrev pub envelope : Value → Option Envelope
envelope v = some (record { content = v; errors = []; message = [] })

abbrev host_of : (List Event → Reply) → (Str → Option Envelope) → (List Event → Option Error) → Host
host_of reply decode probe = record {
  reply = reply;
  decode = decode;
  render = λ env n. ok (lit "ks");
  build = λ ks n. ok (lit "/tmp/a.iso");
  open_file = λ path. none;
  probe = probe;
  patience = 2;
  attempts = 3;
  canceled = errorf "context canceled" [];
}

-- Accepts every request at once.
abbrev pub accepting : Host
accepting = host_of (λ hist. replied 200 []) (λ body. envelope null) (λ hist. none)

abbrev pub task : String → String → Value
task status exit =
    mapping (
      field (lit "status") (string (lit status)) (field (lit "exitstatus") (string (lit exit)) end))

abbrev by_method : Bool → Str
by_method true = lit "d"
by_method false = lit "u"

abbrev answer_to : Event → Str
answer_to (request r) = by_method (is_get r.method)
answer_to e = lit "u"

-- Accepts every request with a task, whose id has a mark that a path escapes, and that ends at once.
abbrev pub serving : Host
serving =
    host_of (λ hist. replied 200 (elim hist [ [] ↦ [] | e ∷ older ↦ answer_to e ]))
      (λ body.
        envelope
          (if str_eq body (lit "d") then task "stopped" "OK" else string (lit "UPID:pve:a@pve!t:")))
      (λ hist. none)

pub serving-Accepts : Accepts serving
unfolding answer data_of as_upid lit str_eq poll call as_task task_fields value_at finished exit_of
    is_empty StillRunning polled
serving-Accepts = record {
  task = λ m path b. lit "UPID:pve:a@pve!t:";
  polls = λ node upid hist. 0;
  accepted = taken;
  in_time = λ node upid hist. omega arith;
  running = λ node upid hist. tt;
  over = λ node upid hist.
      (record { status = lit "stopped"; exit_status = lit "OK" }, refl, refl, refl);
}
  where
    taken :
        (m : Method) (path : Str) (b : Body) (hist : List Event)
        → is_get m ≡ false
        → (v : Value) × (answer serving (serving.reply (requested m path b ∷ hist)) ≡ ok v)
          × (as_upid v ≡ ok (lit "UPID:pve:a@pve!t:"))
    taken get path b hist g = cc g
    taken post path b hist g = (_, refl, refl)
    taken put path b hist g = (_, refl, refl)
    taken delete path b hist g = (_, refl, refl)

-- Knows no virtual machine.
abbrev pub empty_node : Host
empty_node = host_of (λ hist. replied 404 []) (λ body. none) (λ hist. none)

-- Whether something was waited for.
unfoldable pub waited : List Event → Bool
waited [] = false
waited (slept ∷ hist) = true
waited (request r ∷ hist) = waited hist
waited (rendered n ∷ hist) = waited hist
waited (built ks n ∷ hist) = waited hist
waited (removed p ∷ hist) = waited hist
waited (probed ip port ∷ hist) = waited hist
waited (printed s args ∷ hist) = waited hist

-- Has a task that runs until it is polled again, and a port that opens then.
abbrev pub busy : Host
busy =
    host_of (λ hist. replied 200 (if waited hist then lit "d" else lit "r"))
      (λ body. envelope (if str_eq body (lit "d") then task "stopped" "OK" else task "running" ""))
      (λ hist. if waited hist then none else some (errorf "refused" []))

-- Has a task that never ends.
abbrev pub stuck : Host
stuck = host_of (λ hist. replied 200 []) (λ body. envelope (task "running" "")) (λ hist. none)

abbrev pub iso : IsoConfig
iso = record {
  storage = lit "local";
  image = lit "ol9.iso";
  guest_os_type = [];
  kickstart_storage = lit "local";
  bootloader_dir = [];
}

abbrev pub vm_node : Node
vm_node = record (node 100 (nic "public" "" ∷ []) (disk "" "nvme" "" ∷ [])) {
  ips = (lit "public", lit "10.0.0.5") ∷ [];
}

abbrev pub manifest : Env
manifest = record (env_of []) {
  spec = record (env_of []).spec {
    hypervisor = inline_of (record (hypervisor_of ((lit "a", vm_node) ∷ [])) { iso = some iso });
  };
}

abbrev pub workflow : Bool → SingleVm
workflow dry = record {
  config = some manifest;
  node_name = lit "a";
  has_client = true;
  has_renderer = true;
  has_builder = true;
  dry_run = dry;
  skip_kickstart_build = false;
  skip_finalize = false;
  skip_ssh_wait = false;
  ssh_port = 0;
}

abbrev pub target : Target
target = record {
  env = manifest;
  node = vm_node;
  ks = none;
  iso = some iso;
  cluster = some cluster;
}

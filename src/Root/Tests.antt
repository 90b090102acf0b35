-- ===== src/Root/Tests.antt =====
-- A process with credentials and a manifest, and the theorems of Root for it.
pub mod Generate
use proxclt.Base.{
  ◌≤◌, Str, lit, is_empty, has_suffix, Bool, true, false, none, some, [], ◌∷◌, ◌++◌, errorf, ok,
  err, ◌≡◌, ◌≢◌, refl, inl,
}
use proxclt.World.{outcome}
use proxclt.Workflow.Tests.Hosts.{accepting, manifest}
use proxclt.Root.Process.{Process, normalize_endpoint}
use proxclt.Root.Vm.{vm_delete, snapshot_restore, vm_create}
use proxclt.Root.Vm.Creation.{vm_create-fails}
use proxclt.Root.Workflow.{WorkflowFlags, workflow_down}
use proxclt.Root.Guarded.{Refused, unconfirmed-Refused}
use proxclt.Root.Endpoint.{IsPlain, normalize_endpoint-IsPlain}
use proxclt.Root.Redact.{redact_once, redact_prefix, redact, cut_text, redact_loop}
use proxclt.Root.Redact.Closed.{redact_prefix-Closed}
use proxclt.Trace.Replay.{Json}
use proxclt.Trace.Tests.Codec.{toy_codec, toy_codec-IsLineCodec}
use proxclt.Trace.Holds.{load_all-Holds}
use proxclt.Trace.Tests.Chain.{first}
use proxclt.Trace.Tests.Files.{old_file, file-Holds}
use proxclt.Root.Replay.{run_replay}
use proxclt.Root.Replay.Unchanged.{all_matched, run_replay-Loaded}
use proxclt.Root.Flags.{Names, flag, resolve_commands, resolve_deprecated_flags}
use proxclt.Root.Flags.Once.{times, allowance, resolve_commands-Once}

abbrev pub process : Bool → Process
process assume_yes = record {
  getenv = λ name. lit "set";
  home = lit "/home/a";
  read_file = λ path. err (errorf "no such file" []);
  parse_config = λ text. ok (record { current_context = []; contexts = [] });
  stat = λ path. none;
  load = λ path. ok manifest;
  renderer = ok tt;
  tunnel = λ endpoint. ok endpoint;
  context = [];
  stack = [];
  assume_yes = assume_yes;
}

abbrev flags : WorkflowFlags
flags = record {
  node = [];
  bootloader_dir = [];
  force = false;
  dry_run = false;
  max_concurrency = 0;
  continue_on_error = false;
  skip_kickstart_build = false;
  skip_finalize = false;
}

unconfirmed-Refused_example :
    Refused [] (vm_delete (process false) (lit "a") true accepting [])
    × Refused [] (snapshot_restore (process false) (lit "a") (lit "s") accepting [])
    × Refused [] (workflow_down (process false) flags accepting [])
unconfirmed-Refused_example =
    unconfirmed-Refused (process false) flags (lit "a") (lit "s") true accepting [] refl

vm_create-fails_example : outcome (vm_create (process true) (lit "a") false accepting []) ≢ ok tt
vm_create-fails_example = vm_create-fails (process true) (lit "a") accepting []

redact_test :
    redact (lit "a <VAULT:x> b <VAULT:<GEN_SSH_KEY:y> c <VAULT:z")
    ≡ lit "a <REDACTED> b <REDACTED> c <VAULT:z"
unfolding redact lit redact_prefix redact_loop redact_once cut_text
redact_test = refl

redact_prefix-Closed_example :
    (redact_once (lit "<VAULT:") (redact_prefix (lit "<VAULT:") (lit "a <VAULT:x> b")) ≡ none)
    × ((h m t : Str)
        → redact_prefix (lit "<VAULT:") (lit "a <VAULT:x> b")
          ≢ h ++ (lit "<VAULT:" ++ (m ++ b'>' ∷ t)))
redact_prefix-Closed_example = redact_prefix-Closed (lit "<VAULT:") (inl refl) (lit "a <VAULT:x> b")

abbrev names : Names
names = record {
  stack = [];
  env = lit "dev";
  stack_var = [];
  env_var = [];
  env_deprecated = false;
  env_flag_deprecated = false;
  env_var_deprecated = false;
}

resolve_commands-Once_example :
    times flag (resolve_commands names (false ∷ true ∷ [])).1 ≤ allowance flag names
resolve_commands-Once_example = resolve_commands-Once names (false ∷ true ∷ []) flag

warned_test : times flag (resolve_commands names (false ∷ true ∷ [])).1 ≡ 1
unfolding resolve_commands resolve_deprecated_flags is_empty lit
warned_test = refl

abbrev plain : Json
plain = record { canonical = some }

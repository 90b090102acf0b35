-- ===== src/Root/Guarded.antt =====
-- The commands that destroy something, without --yes.
use proxclt.Base.{Str, Bool, false, ◌≡◌, refl, [], Error, Result, err, Result-cases, List, inl, inr}
use proxclt.World.{Event, Host}
use proxclt.Root.Process.{Process, load_env_manifest, resolve_node_ref}
use proxclt.Root.Vm.{vm_delete, snapshot_restore}
use proxclt.Root.Workflow.{WorkflowFlags, workflow_down}

-- An error, with nothing done to the outside.
abbrev pub Refused {ℓ} : {A : Type ℓ} → List Event → Result A × List Event → Type ℓ
Refused hist x = (e : Error) × (x ≡ (err e, hist))

vm_delete-Refused :
    (p : Process) (name : Str) (purge : Bool) (host : Host) (hist : List Event)
    → p.assume_yes ≡ false
    → Refused hist (vm_delete p name purge host hist)
unfolding vm_delete
vm_delete-Refused p name purge host hist no_yes = elim (Result-cases (load_env_manifest p [])) [
  | inr (e, failed) ↦ (e, rw failed refl)
  | inl (env, loaded) ↦ elim (Result-cases (resolve_node_ref env name)) [
    | inr (e, failed) ↦ (e, rw (loaded, failed) refl)
    | inl (ref, found) ↦ rw (loaded, found, no_yes) (_, refl)
  ]
]

workflow_down-Refused :
    (p : Process) (f : WorkflowFlags) (host : Host) (hist : List Event)
    → p.assume_yes ≡ false
    → Refused hist (workflow_down p f host hist)
unfolding workflow_down
workflow_down-Refused p f host hist no_yes = elim (Result-cases (load_env_manifest p [])) [
  | inr (e, failed) ↦ rw failed (_, refl)
  | inl (env, loaded) ↦ elim (Result-cases p.renderer) [
    | inr (e, failed) ↦ rw (loaded, failed) (_, refl)
    | inl (u, rendered) ↦ rw (loaded, rendered, no_yes) (_, refl)
  ]
]

-- Without --yes, the deletion of a VM, the restoration of a snapshot and the tear-down of a workflow
-- return an error and send no request, for every manifest, set of flags and server.
pub unconfirmed-Refused :
    (p : Process) (f : WorkflowFlags) (name snap : Str) (purge : Bool) (host : Host)
    (hist : List Event)
    → p.assume_yes ≡ false
    → Refused hist (vm_delete p name purge host hist)
      × Refused hist (snapshot_restore p name snap host hist)
      × Refused hist (workflow_down p f host hist)
unfolding snapshot_restore
unconfirmed-Refused p f name snap purge host hist no_yes = (
  vm_delete-Refused p name purge host hist no_yes,
  rw no_yes (_, refl),
  workflow_down-Refused p f host hist no_yes,
)

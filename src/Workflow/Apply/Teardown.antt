-- ===== src/Workflow/Apply/Teardown.antt =====
-- Rollback and Down of pkg/workflow/single_vm.go.
use proxclt.Base.{Bool, true, false, List, Result, ok, ◌≡◌, refl}
use proxclt.World.{Event, Host, Action, proceed, history, ignore}
use proxclt.Proxmox.Vm.{vm_exists, stop_vm, delete_vm}
use proxclt.Workflow.Options.{SingleVm, Target, resolve}
use proxclt.Workflow.Apply.{destroy, rollback, down}

-- Where no VM of the node's id exists, Down and Rollback succeed after that one look, whatever the
-- answers to other requests would be: nothing is stopped or deleted.
pub teardown-absent :
    (w : SingleVm) (t : Target) (force : Bool) (host : Host) (hist seen : List Event)
    → w.has_client ≡ true
    → resolve w ≡ ok t
    → vm_exists t.node.proxmox.node_name t.node.proxmox.vmid host hist ≡ (ok false, seen)
    → (down w force host hist ≡ (ok tt, seen)) × (rollback w host hist ≡ (ok tt, seen))
unfolding down rollback destroy
teardown-absent w t force host hist seen client found absent =
    (rw (found, client, absent) refl, rw (found, client, absent) refl)

proceed-ignore :
    (rest : Unit {0} → Action (Unit {0})) (host : Host) (p : Result (Unit {0}) × List Event)
    → proceed rest host (ignore p) ≡ rest tt host (history p)
proceed-ignore rest host (r, hist) = refl

-- Where the VM exists, Down deletes it even if the stop fails: what it returns is what the deletion
-- returns, after whatever the stop did.
pub teardown-present :
    (w : SingleVm) (t : Target) (force : Bool) (host : Host) (hist seen : List Event)
    → w.has_client ≡ true
    → resolve w ≡ ok t
    → vm_exists t.node.proxmox.node_name t.node.proxmox.vmid host hist ≡ (ok true, seen)
    → let stopped =
        history (stop_vm t.node.proxmox.node_name t.node.proxmox.vmid force host seen) in
      down w force host hist
      ≡ delete_vm t.node.proxmox.node_name t.node.proxmox.vmid true host stopped
unfolding down destroy
teardown-present w t force host hist seen client found present =
    rw (found, client, present)
      (proceed-ignore (λ _. delete_vm t.node.proxmox.node_name t.node.proxmox.vmid true) host
        (stop_vm t.node.proxmox.node_name t.node.proxmox.vmid force host seen))

-- ===== src/Root/Vm.antt =====
-- internal/root/vm.go, snapshot.go and boot.go: the commands on one virtual machine. What they print of
-- a result is the result here.
pub mod Creation
use proxclt.Base.{
  ℕ, Str, String, lit, concat, is_empty, str_eq, ◌||◌, Bool, true, false, not, if◌then◌else◌,
  Option, none, some, List, [], ◌∷◌, ◌++◌, errorf, Result, ok, err, refuse_if, require,
}
use proxclt.Config.Model.{Dict, Node, Hypervisor, Env, Value, Fields, resolved}
use proxclt.World.{post, put, delete, no_body, form, Method, Body, Action, return, ◌>>=◌, ◌>>◌, get}
use proxclt.Proxmox.Client.{call, send, vm_path}
use proxclt.Proxmox.Vm.{Vm, start_vm, stop_vm, reboot_vm, delete_vm, get_vm}
use proxclt.Proxmox.Specs.{set}
use proxclt.Proxmox.Listing.{list_vms, Snapshot, as_list, as_struct, snapshot_of}
use proxclt.Workflow.Options.{SingleVm}
use proxclt.Workflow.Apply.{up}
use proxclt.Root.Process.{Process, load_env_manifest, load_proxmox_client, resolve_node_ref}

-- A request on the VM of a node of the manifest, for which a client is made.
abbrev pub on_node {ℓ} : {A : Type ℓ} → Process → Str → (Str → ℕ → Action A) → Action A
on_node p name request = do
  env ← return (load_env_manifest p [])
  ref ← return (resolve_node_ref env name)
  client ← return (load_proxmox_client p)
  request ref.0 ref.1

abbrev pub need_yes : Process → String → Action (Unit {0})
need_yes p text = return (refuse_if (not p.assume_yes) (errorf text []))

unfoldable pub vm_start : Process → Str → Action (Unit {0})
unfolding load_env_manifest resolve_node_ref load_proxmox_client start_vm
vm_start p name = on_node p name start_vm

unfoldable pub vm_stop : Process → Str → Bool → Action (Unit {0})
unfolding load_env_manifest resolve_node_ref load_proxmox_client stop_vm
vm_stop p name force = on_node p name (λ node vmid. stop_vm node vmid force)

unfoldable pub vm_reboot : Process → Str → Action (Unit {0})
unfolding load_env_manifest resolve_node_ref load_proxmox_client reboot_vm
vm_reboot p name = on_node p name reboot_vm

unfoldable pub vm_delete : Process → Str → Bool → Action (Unit {0})
unfolding load_env_manifest resolve_node_ref load_proxmox_client delete_vm
vm_delete p name purge = do
  env ← return (load_env_manifest p [])
  ref ← return (resolve_node_ref env name)
  need_yes p "refusing to delete without --yes"
  client ← return (load_proxmox_client p)
  delete_vm ref.0 ref.1 purge

unfoldable pub vm_show : Process → Str → Action Vm
unfolding load_env_manifest resolve_node_ref load_proxmox_client get_vm
vm_show p name = on_node p name get_vm

unfoldable pub member : Str → List Str → Bool
member s [] = false
member s (t ∷ rest) = str_eq t s || member s rest

-- The loop over the nodes: each Proxmox node is asked once.
unfoldable pub list_from : List Str → Dict Node → Action (List Vm)
unfolding member list_vms
list_from seen [] = return (ok [])
list_from seen ((name, n) ∷ rest) =
    let skipped = list_from seen rest in
    let asked = list_vms n.proxmox.node_name >>= (λ vms.
      list_from (n.proxmox.node_name ∷ seen) rest >>= (λ later. return (ok (vms ++ later)))) in
    if member n.proxmox.node_name seen then skipped else asked

unfoldable pub vm_list : Process → Action (List Vm)
unfolding load_env_manifest load_proxmox_client resolved list_from
vm_list p = do
  env ← return (load_env_manifest p [])
  client ← return (load_proxmox_client p)
  hyp ← return (require (errorf "hypervisor not resolved" []) (resolved env.spec.hypervisor))
  list_from [] hyp.nodes

-- The workflow that `vm create` runs: no ISO builder is set.
abbrev pub creation : Env → Str → Bool → SingleVm
creation env name skip_kickstart = record {
  config = some env;
  node_name = name;
  has_client = true;
  has_renderer = true;
  has_builder = false;
  dry_run = false;
  skip_kickstart_build = skip_kickstart;
  skip_finalize = false;
  skip_ssh_wait = false;
  ssh_port = 0;
}

unfoldable pub vm_create : Process → Str → Bool → Action (Unit {0})
unfolding load_env_manifest load_proxmox_client up
vm_create p name skip_kickstart = do
  env ← return (load_env_manifest p [])
  client ← return (load_proxmox_client p)
  return p.renderer
  up (creation env name skip_kickstart)

unfoldable pub snapshot_create : Process → Str → Str → Action (Unit {0})
unfolding load_env_manifest resolve_node_ref load_proxmox_client send vm_path
snapshot_create p name snap = on_node p name (λ node vmid.
    send post (vm_path node vmid ++ lit "/snapshot") (form ((lit "snapname", snap) ∷ [])))

unfoldable pub snapshot_restore : Process → Str → Str → Action (Unit {0})
unfolding load_env_manifest resolve_node_ref load_proxmox_client send vm_path
snapshot_restore p name snap = do
  need_yes p "refusing to restore without --yes"
  on_node p name (λ node vmid.
      send post (concat (vm_path node vmid ∷ lit "/snapshot/" ∷ snap ∷ lit "/rollback" ∷ []))
        (form []))

-- Every entry of the reply, the one of the running state with the others.
unfoldable pub snapshot_list : Process → Str → Action (List Snapshot)
unfolding load_env_manifest resolve_node_ref load_proxmox_client call vm_path as_list as_struct
    snapshot_of
snapshot_list p name = on_node p name (λ node vmid.
    call get (vm_path node vmid ++ lit "/snapshot") no_body
    >>= (λ v. return (as_list (as_struct snapshot_of) v)))

unfoldable pub snapshot_delete : Process → Str → Str → Action (Unit {0})
unfolding load_env_manifest resolve_node_ref load_proxmox_client send vm_path
snapshot_delete p name snap =
    on_node p name
      (λ node vmid. send delete (concat (vm_path node vmid ∷ lit "/snapshot/" ∷ snap ∷ [])) no_body)

-- A form with the drive, and with the boot order where one is given. `form.Set` of the drive "boot" would
-- be overwritten by the second one.
unfoldable pub first_boot_form : Str → Str → Str → Dict Str
unfolding is_empty
first_boot_form ide iso order =
    if is_empty order
    then (ide, iso ++ lit ",media=cdrom") ∷ []
    else set (lit "boot") (lit "order=" ++ order) ((ide, iso ++ lit ",media=cdrom") ∷ [])

unfoldable pub boot_configure : Process → Str → Str → Str → Str → Action (Unit {0})
unfolding load_env_manifest resolve_node_ref load_proxmox_client send vm_path first_boot_form
boot_configure p name iso ide order = on_node p name (λ node vmid.
    return (refuse_if (is_empty iso) (errorf "--iso required (e.g. local:iso/kickstart.iso)" []))
    >> send put (vm_path node vmid ++ lit "/config") (form (first_boot_form ide iso order)))

unfoldable pub boot_eject : Process → Str → Str → Action (Unit {0})
unfolding load_env_manifest resolve_node_ref load_proxmox_client send vm_path
boot_eject p name ide = on_node p name (λ node vmid.
    send put (vm_path node vmid ++ lit "/config") (form ((ide, lit "none,media=cdrom") ∷ [])))

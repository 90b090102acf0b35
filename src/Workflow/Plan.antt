-- ===== src/Workflow/Plan.antt =====
-- pkg/workflow/single_vm.go: Plan.
pub mod Order
use proxclt.Base.{
  ℕ, Str, String, lit, concat, itoa, is_empty, length, Bool, true, false, not, ◌||◌, if◌then◌else◌,
  Option, none, some, List, [], ◌∷◌, ◌++◌, Error, errorf, Result, ok, err,
}
use proxclt.Config.Model.{ProxmoxRef, Node, Resources, IsoConfig, KickstartConfig}
use proxclt.World.{Action, return, ◌>>=◌, ◌>>◌, within}
use proxclt.Proxmox.Vm.{vm_exists}
use proxclt.Workflow.Options.{SingleVm, Target, resolve, resources_of}

-- The kinds of changes, named by the strings of the source; `unknown` is any other string.
pub data Kind : Type 0 where
  render_kickstart build_iso upload_iso verify_kickstart_iso create_vm attach_kickstart_iso : Kind
  start_vm : Kind
  unknown : Str → Kind

-- The text of a kind.
unfoldable pub kind_text : Kind → Str
unfolding lit
kind_text render_kickstart = lit "render-kickstart"
kind_text build_iso = lit "build-iso"
kind_text upload_iso = lit "upload-iso"
kind_text verify_kickstart_iso = lit "verify-kickstart-iso"
kind_text create_vm = lit "create-vm"
kind_text attach_kickstart_iso = lit "attach-kickstart-iso"
kind_text start_vm = lit "start-vm"
kind_text (unknown k) = k

-- `detail` are the four numbers of Details: memory, cores, disks and NICs.
pub record Change : Type 0 where
  pub kind : Kind
  pub target : Str
  pub description : Str
  pub details : List ℕ

-- r.iso.KickstartStorage, empty where there is no iso block
unfoldable pub kickstart_storage : Option IsoConfig → Str
kickstart_storage none = []
kickstart_storage (some iso) = iso.kickstart_storage

unfoldable pub safe_distro : Option KickstartConfig → Str
safe_distro none = lit "(no-kickstart)"
safe_distro (some ks) = ks.distro

unfoldable pub vm_target : Target → Str
vm_target t = concat (t.node.proxmox.node_name ∷ lit "/" ∷ itoa t.node.proxmox.vmid ∷ [])

abbrev pub with_storage : Target → (Str → Change) → List Change
with_storage t change = let s = kickstart_storage t.iso in if is_empty s then [] else change s ∷ []

unfoldable pub upload_change : Target → Str → Change
upload_change t s = record {
  kind = upload_iso;
  target = s;
  description = concat (
      lit "upload kickstart ISO to storage " ∷ s ∷ lit " on node " ∷ t.node.proxmox.node_name ∷ []);
  details = [];
}

unfoldable pub verify_change : Target → Str → Change
verify_change t s = record {
  kind = verify_kickstart_iso;
  target = s;
  description = concat (
      lit "verify kickstart ISO already uploaded to "
      ∷ s
      ∷ lit " on node "
      ∷ t.node.proxmox.node_name
      ∷ lit " (skip-kickstart-build)"
      ∷ []);
  details = [];
}

unfoldable pub build_changes : Str → Target → List Change
unfolding safe_distro upload_change
build_changes name t =
    record {
      kind = render_kickstart;
      target = name;
      description = concat (lit "render " ∷ safe_distro t.ks ∷ lit " kickstart for " ∷ name ∷ []);
      details = [];
    }
    ∷ record {
      kind = build_iso;
      target = name;
      description = concat (lit "build kickstart ISO for " ∷ name ∷ []);
      details = [];
    }
    ∷ with_storage t (upload_change t)

unfoldable pub kickstart_changes : Bool → Str → Target → List Change
unfolding build_changes verify_change
kickstart_changes skip name t =
    if skip then with_storage t (verify_change t) else build_changes name t

unfoldable pub create_change : Target → Change
unfolding vm_target resources_of
create_change t = record {
  kind = create_vm;
  target = vm_target t;
  description =
      concat
        (lit "create VM " ∷ itoa t.node.proxmox.vmid ∷ lit " on " ∷ t.node.proxmox.node_name ∷ []);
  details =
      (resources_of t.node.resources).memory
      ∷ (resources_of t.node.resources).cores
      ∷ length t.node.disks
      ∷ length t.node.nics
      ∷ [];
}

unfoldable pub attach_change : Target → Str → Change
unfolding vm_target
attach_change t s = record {
  kind = attach_kickstart_iso;
  target = vm_target t;
  description = concat (
      lit "attach kickstart ISO to ide3 + set boot order (scsi0;ide3;ide2) on VM "
      ∷ itoa t.node.proxmox.vmid
      ∷ []);
  details = [];
}

unfoldable pub start_change : Target → Change
unfolding vm_target
start_change t = record {
  kind = start_vm;
  target = vm_target t;
  description = concat (lit "start VM " ∷ itoa t.node.proxmox.vmid ∷ []);
  details = [];
}

unfoldable pub changes : SingleVm → Target → List Change
unfolding kickstart_changes create_change attach_change start_change
changes w t =
    kickstart_changes w.skip_kickstart_build w.node_name t
    ++ create_change t ∷ with_storage t (attach_change t)
    ++ start_change t ∷ []

unfoldable pub require_absent : Target → Bool → Result (Unit {0})
require_absent t exists =
    if exists
    then err (
        errorf "plan: vm %d already exists on %s (run vm.delete first)"
          (itoa t.node.proxmox.vmid ∷ t.node.proxmox.node_name ∷ []))
    else ok tt

unfoldable pub check_absent : SingleVm → Target → Action (Unit {0})
unfolding vm_exists require_absent
check_absent w t =
    if w.has_client
    then within "plan: vm-exists check: %w" []
        (vm_exists t.node.proxmox.node_name t.node.proxmox.vmid)
      >>= (λ exists. return (require_absent t exists))
    else return (ok tt)

unfoldable pub plan : SingleVm → Action (List Change)
unfolding resolve check_absent changes
plan w = do t ← return (resolve w); check_absent w t; return (ok (changes w t))

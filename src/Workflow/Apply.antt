-- ===== src/Workflow/Apply.antt =====
-- pkg/workflow/single_vm.go: Apply, Verify, Rollback, Up and Down. The upload mutex is not
-- modelled: one workflow runs here.
pub mod DryRun
pub mod Iso
pub mod Teardown
pub mod Steps
pub mod Provision
use proxclt.Base.{
  refuse_if, ℕ, Str, String, lit, concat, itoa, is_empty, equal_fold, Bool, true, false, not, ◌&&◌,
  if◌then◌else◌, List, [], ◌∷◌, ◌++◌, Error, errorf, Result, ok, err,
}
use proxclt.Config.Model.{ProxmoxRef, Node, Env}
use proxclt.World.{
  Event, rendered, built, removed, printed, Host, Action, return, record_event, no_error, ◌>>=◌,
  ◌>>◌, within, best_effort, failing_as,
}
use proxclt.Proxmox.Vm.{Vm, vm_exists, get_vm, stop_vm, delete_vm}
use proxclt.Proxmox.Storage.{storage_content_exists}
use proxclt.Proxmox.Boot.{attach_iso, set_boot_order}
use proxclt.Workflow.Options.{SingleVm, Target, resolve, build_create_opts}
use proxclt.Workflow.Plan.{
  Kind, kind_text, render_kickstart, build_iso, upload_iso, verify_kickstart_iso, create_vm,
  attach_kickstart_iso, start_vm, unknown, Change, kickstart_storage, plan,
}
use proxclt.Workflow.Finalize.{finalize}

-- The local variables of the loop of Apply.
pub record Locals : Type 0 where
  pub rendered_ks : Str
  pub iso_path : Str

-- The remote name under which upload-iso stores the image.
unfoldable pub upload_name : Str → Str
upload_name node = concat (lit "proxctl-" ∷ node ∷ lit ".iso" ∷ [])

-- The volume that verify-kickstart-iso looks for and attach-kickstart-iso attaches.
unfoldable pub kickstart_volid : Str → Str → Str
kickstart_volid storage node = concat (storage ∷ lit ":iso/" ∷ node ∷ lit "_kickstart.iso" ∷ [])

abbrev require_client : SingleVm → Action (Unit {0})
require_client w = return (refuse_if (not w.has_client) (errorf "apply: Client not set" []))

abbrev require_storage : Target → String → Action (Unit {0})
require_storage t text = return (refuse_if (is_empty (kickstart_storage t.iso)) (errorf text []))

unfoldable pub apply_render : SingleVm → Target → Locals → Action Locals
apply_render w t l = do
  return (refuse_if (not w.has_renderer) (errorf "apply: Renderer not set" []))
  record_event (rendered w.node_name)
  ks ← within "render: %w" [] (λ host. return (host.render t.env w.node_name) host)
  return (ok (record l { rendered_ks = ks }))

unfoldable pub apply_build : SingleVm → Locals → Action Locals
apply_build w l = do
  return (refuse_if (not w.has_builder) (errorf "apply: Builder not set" []))
  record_event (built l.rendered_ks w.node_name)
  path ← within "build-iso: %w" [] (λ host. return (host.build l.rendered_ks w.node_name) host)
  return (ok (record l { iso_path = path }))

unfoldable pub apply_upload : SingleVm → Target → Locals → Action (Unit {0})
unfolding kickstart_storage upload_name
apply_upload w t l = do
  require_client w
  require_storage t "apply: iso.kickstart_storage not configured"
  return (refuse_if (is_empty l.iso_path) (errorf "apply: iso path empty (did build-iso run?)" []))
  within "upload-iso: %w" [] (
      proxclt.Proxmox.Storage.upload_iso t.node.proxmox.node_name (kickstart_storage t.iso)
        l.iso_path (upload_name w.node_name))

unfoldable pub apply_verify_iso : SingleVm → Target → Action (Unit {0})
unfolding kickstart_storage kickstart_volid storage_content_exists
apply_verify_iso w t = do
  require_client w
  require_storage t
      "apply: iso.kickstart_storage not configured (cannot verify pre-uploaded kickstart ISO)"
  present ← within "verify-kickstart-iso: %w" [] (
      storage_content_exists t.node.proxmox.node_name (kickstart_storage t.iso)
        (kickstart_volid (kickstart_storage t.iso) w.node_name))
  return (
      refuse_if (not present) (
        errorf
          "verify-kickstart-iso: %s not present on %s — upload it first or omit --skip-kickstart-build"
          (kickstart_volid (kickstart_storage t.iso) w.node_name ∷ t.node.proxmox.node_name ∷ [])))

unfoldable pub apply_create : SingleVm → Target → Action (Unit {0})
unfolding build_create_opts
apply_create w t = do
  require_client w
  within "create-vm: %w" [] (proxclt.Proxmox.Vm.create_vm (build_create_opts w.node_name t))

unfoldable pub apply_attach : SingleVm → Target → Action (Unit {0})
unfolding kickstart_storage kickstart_volid attach_iso set_boot_order
apply_attach w t = do
  require_client w
  require_storage t "apply: iso.kickstart_storage not configured (cannot attach kickstart ISO)"
  within "attach-kickstart-iso: %w" [] (
      attach_iso t.node.proxmox.node_name t.node.proxmox.vmid (lit "ide3")
        (kickstart_volid (kickstart_storage t.iso) w.node_name))
  within "attach-kickstart-iso: set boot order: %w" []
      (set_boot_order t.node.proxmox.node_name t.node.proxmox.vmid (lit "scsi0;ide3;ide2"))

unfoldable pub apply_start : SingleVm → Target → Action (Unit {0})
apply_start w t = do
  require_client w
  within "start-vm: %w" []
      (proxclt.Proxmox.Vm.start_vm t.node.proxmox.node_name t.node.proxmox.vmid)

abbrev keeping : Locals → Action (Unit {0}) → Action Locals
keeping l step = step >> return (ok l)

-- The switch on the kind of a change.
unfoldable pub execute : SingleVm → Target → Locals → Kind → Action Locals
unfolding apply_render apply_build apply_upload apply_verify_iso apply_create apply_attach
    apply_start
execute w t l render_kickstart = apply_render w t l
execute w t l build_iso = apply_build w l
execute w t l upload_iso = keeping l (apply_upload w t l)
execute w t l verify_kickstart_iso = keeping l (apply_verify_iso w t)
execute w t l create_vm = keeping l (apply_create w t)
execute w t l attach_kickstart_iso = keeping l (apply_attach w t)
execute w t l start_vm = keeping l (apply_start w t)
execute w t l (unknown k) = return (err (errorf "apply: unknown change kind %q" (k ∷ [])))

unfoldable pub apply_change : SingleVm → Target → Locals → Change → Action Locals
unfolding execute
apply_change w t l ch =
    if w.dry_run
    then record_event (printed "[dry-run] %s: %s" (kind_text ch.kind ∷ ch.description ∷ []))
      >> return (ok l)
    else execute w t l ch.kind

unfoldable pub apply_all : SingleVm → Target → Locals → List Change → Action Locals
unfolding apply_change
apply_all w t l [] = return (ok l)
apply_all w t l (ch ∷ rest) = apply_change w t l ch >>= λ m. apply_all w t m rest

-- The temporary ISO is removed, where one was built.
abbrev pub clean_up : Locals → Action (Unit {0})
clean_up l = if is_empty l.iso_path then return (ok tt) else record_event (removed l.iso_path)

unfoldable pub apply : SingleVm → List Change → Action (Unit {0})
unfolding resolve apply_all
apply w chs = do
  t ← return (resolve w)
  l ← apply_all w t (record { rendered_ks = []; iso_path = [] }) chs
  clean_up l

unfoldable pub verify : SingleVm → Action (Unit {0})
unfolding resolve get_vm
verify w = do
  t ← return (resolve w)
  return (refuse_if (not w.has_client) (errorf "verify: Client not set" []))
  vm ← within "verify: %w" [] (get_vm t.node.proxmox.node_name t.node.proxmox.vmid)
  return (
      refuse_if (not (equal_fold vm.status (lit "running")))
        (errorf "verify: VM %d status=%q, expected running" (itoa vm.vmid ∷ vm.status ∷ [])))

-- The VM is stopped, whatever becomes of that, and deleted, where it exists.
unfoldable pub destroy : Target → Bool → Bool → Action (Unit {0})
unfolding stop_vm delete_vm
destroy t force exists =
    if exists
    then best_effort (stop_vm t.node.proxmox.node_name t.node.proxmox.vmid force)
      >> delete_vm t.node.proxmox.node_name t.node.proxmox.vmid true
    else return (ok tt)

unfoldable pub rollback : SingleVm → Action (Unit {0})
unfolding resolve vm_exists destroy
rollback w = do
  t ← return (resolve w)
  return (refuse_if (not w.has_client) (errorf "rollback: Client not set" []))
  exists ← vm_exists t.node.proxmox.node_name t.node.proxmox.vmid
  destroy t true exists

unfoldable pub down : SingleVm → Bool → Action (Unit {0})
unfolding resolve vm_exists destroy
down w force = do
  t ← return (resolve w)
  return (refuse_if (not w.has_client) (errorf "down: Client not set" []))
  exists ← vm_exists t.node.proxmox.node_name t.node.proxmox.vmid
  destroy t force exists

-- A call of Verify, whose error is printed and dropped.
abbrev warned : Result (Unit {0}) × List Event → Result (Unit {0}) × List Event
warned (ok u, hist) = (ok tt, hist)
warned (err e, hist) = (ok tt, printed "warn: verify: %v" [] ∷ hist)

abbrev pub warning : Action (Unit {0}) → Action (Unit {0})
warning call host hist = warned (call host hist)

unfoldable pub up : SingleVm → Action (Unit {0})
unfolding plan apply verify finalize
up w = do
  chs ← plan w
  apply w chs
  warning (verify w)
  if not w.skip_finalize && not w.dry_run
      then within "finalize: %w" [] (finalize w)
      else return (ok tt)

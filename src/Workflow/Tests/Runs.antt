-- ===== src/Workflow/Tests/Runs.antt =====
-- The theorems on the steps of pkg/workflow/single_vm.go and finalize.go, for one node.
use proxclt.Base.{
  Bool, lit, is_empty, equal_fold, to_lower, str_eq, itoa, first_non_empty, false, List, [], ◌∷◌,
  ◌++◌, All, Pairs, ok, ◌≡◌, ◌≢◌, ◌↔◌, ◌<◌, refl,
}
use proxclt.Config.Model.{lookup, resolved, resolved_at}
use proxclt.World.{Event, request, get, no_body, rendered, built, removed}
use proxclt.Proxmox.Client.{vm_path}
use proxclt.Proxmox.Specs.{check_opts, check_disks, check_bridges, lacks_efi}
use proxclt.Proxmox.Accepted.{configured, started, created, uploaded, install_boot}
use proxclt.Workflow.Options.{
  resolve, resolve_in, in_hypervisor, target_of, build_create_opts, resources_of, efi_spec,
  disk_specs, disk_spec, resolve_storage, class_of, nic_specs, nic_spec, install_iso,
}
use proxclt.Workflow.Options.Accepted.{Placed, check_opts-build_iff}
use proxclt.Workflow.Plan.{changes, kickstart_storage}
use proxclt.Workflow.Plan.Order.{Before, changes-Ordered}
use proxclt.Workflow.Apply.{upload_name, kickstart_volid, apply}
use proxclt.Workflow.Apply.Iso.{uploaded_volid, upload-not_attached}
use proxclt.Workflow.Apply.Provision.{apply-Provisions}
use proxclt.Workflow.Tests.Hosts.{serving, serving-Accepts, workflow, target}

resolves : (dry : Bool) → resolve (workflow dry) ≡ ok target
unfolding resolve resolve_in in_hypervisor target_of resolved resolved_at lookup lit str_eq
resolves dry = refl

valid : check_opts (build_create_opts (lit "a") target) ≡ ok tt
unfolding check_opts lacks_efi check_disks check_bridges build_create_opts resources_of efi_spec
    disk_specs disk_spec resolve_storage class_of nic_specs nic_spec install_iso resolved
    first_non_empty is_empty lit equal_fold to_lower str_eq itoa lookup
valid = refl

check_opts-build_iff_example : (check_opts (build_create_opts (lit "a") target) ≡ ok tt) ↔ (
    (target.node.proxmox.node_name ≢ [])
    × (0 < target.node.proxmox.vmid)
    × (lit "a" ≢ [])
    × All (Placed (resolved target.env.spec.storage_classes)) target.node.disks)
check_opts-build_iff_example = check_opts-build_iff (lit "a") target

path_named : is_empty (lit "/tmp/a.iso") ≡ false
unfolding lit is_empty
path_named = refl

storage_named : is_empty (kickstart_storage target.iso) ≡ false
unfolding lit is_empty kickstart_storage
storage_named = refl

abbrev looked : List Event
looked =
    request (record {
      method = get;
      path = vm_path (lit "pve") 100 ++ lit "/status/current";
      body = no_body;
    })
    ∷ []

changes-Ordered_example : Pairs Before (changes (workflow false) target)
changes-Ordered_example = changes-Ordered (workflow false) target

upload-not_attached_example :
    uploaded_volid (lit "local") (upload_name (lit "a")) ≢ kickstart_volid (lit "local") (lit "a")
upload-not_attached_example = upload-not_attached (lit "local") (lit "a")

apply-Provisions_example : apply (workflow false) (changes (workflow false) target) serving [] ≡ (
  ok tt,
  removed (lit "/tmp/a.iso")
      ∷ started serving-Accepts (lit "pve") 100 (
          install_boot serving-Accepts (lit "pve") 100 (
            configured serving-Accepts
              (lit "pve")
              100
              ((lit "ide3", kickstart_volid (lit "local") (lit "a") ++ lit ",media=cdrom") ∷ [])
              (created serving-Accepts (build_create_opts (lit "a") target) (
                uploaded serving-Accepts
                  (lit "pve")
                  (lit "local")
                  (lit "/tmp/a.iso")
                  (upload_name (lit "a"))
                  (built (lit "ks") (lit "a") ∷ rendered (lit "a") ∷ []))))),
)
unfolding kickstart_storage
apply-Provisions_example =
    apply-Provisions (workflow false) target serving [] (lit "ks") (lit "/tmp/a.iso")
      (resolves false)
      (record { client = refl; renderer = refl; builder = refl; wet = refl; building = refl })
      (record { render = refl; build = refl; named = path_named; readable = refl }) serving-Accepts
      storage_named valid

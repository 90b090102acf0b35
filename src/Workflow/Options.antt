-- ===== src/Workflow/Options.antt =====
-- pkg/workflow/single_vm.go: the workflow of one node, what it reads of the env, and
-- buildCreateOpts. A client, a renderer or a builder that is nil is the flag of its name unset.
pub mod Accepted
pub mod Fallback
use proxclt.Base.{
  ℕ, ◌+◌, Str, lit, concat, itoa, str_eq, is_empty, equal_fold, first_non_empty, Bool, true, false,
  not, ◌&&◌, ◌||◌, if◌then◌else◌, Option, none, some, List, [], ◌∷◌, ◌++◌, Error, errorf, Result,
  ok, err,
}
use proxclt.Config.Model.{
  Dict, lookup, Resources, Nic, Disk, ProxmoxRef, Node, IsoConfig, KickstartConfig, Hypervisor,
  StorageClass, StorageClasses, Cluster, Ref, resolved, resolved_at, EnvSpec, Env,
}
use proxclt.Proxmox.Specs.{CreateOpts, DiskSpec, NicSpec, EfiDiskSpec}

pub record SingleVm : Type 0 where
  pub config : Option Env
  pub node_name : Str
  pub has_client : Bool
  pub has_renderer : Bool
  pub has_builder : Bool
  pub dry_run : Bool
  pub skip_kickstart_build : Bool
  pub skip_finalize : Bool
  pub skip_ssh_wait : Bool
  pub ssh_port : ℕ

-- `resolved` of the source: the parts of the env that the steps use.
pub record Target : Type 0 where
  pub env : Env
  pub node : Node
  pub ks : Option KickstartConfig
  pub iso : Option IsoConfig
  pub cluster : Option Cluster

unfoldable pub target_of : Str → Env → Hypervisor → Option Node → Result Target
unfolding resolved_at resolved
target_of name env hyp none = err (errorf "workflow: node %q not in manifest" (name ∷ []))
target_of name env hyp (some n) = ok (record {
  env = env;
  node = n;
  ks = hyp.kickstart;
  iso = hyp.iso;
  cluster = resolved_at env.spec.cluster;
})

unfoldable pub in_hypervisor : Str → Env → Option Hypervisor → Result Target
unfolding target_of lookup
in_hypervisor name env none = err (errorf "workflow: hypervisor not resolved" [])
in_hypervisor name env (some hyp) = target_of name env hyp (lookup name hyp.nodes)

unfoldable pub resolve_in : Str → Option Env → Result Target
unfolding in_hypervisor resolved
resolve_in name none = err (errorf "workflow: Config is nil" [])
resolve_in name (some env) = in_hypervisor name env (resolved env.spec.hypervisor)

-- SingleVMWorkflow.resolve
unfoldable pub resolve : SingleVm → Result Target
unfolding resolve_in
resolve w = resolve_in w.node_name w.config

-- The class of a disk in the catalogue, none where the disk or the catalogue has none.
unfoldable pub class_of : Option StorageClasses → Disk → Option StorageClass
unfolding lookup is_empty
class_of none d = none
class_of (some sc) d = if is_empty d.storage_class then none else lookup d.storage_class sc.classes

abbrev pub backed_by : Disk → Option StorageClass → Str × Bool
backed_by d (some cls) = (cls.backend, cls.shared || d.shared)
backed_by d none = (lit "local-lvm", d.shared)

unfoldable pub resolve_storage : Option StorageClasses → Disk → Str × Bool
unfolding class_of
resolve_storage sc d =
    if is_empty d.storage then backed_by d (class_of sc d) else (d.storage, d.shared)

unfoldable pub disk_spec : Option StorageClasses → ℕ → Disk → DiskSpec
unfolding resolve_storage
disk_spec sc i d = record {
  interface = if is_empty d.interface then lit "scsi" ++ itoa i else d.interface;
  storage = (resolve_storage sc d).0;
  size = d.size;
  shared = (resolve_storage sc d).1;
  format = [];
}

unfoldable pub disk_specs : Option StorageClasses → ℕ → List Disk → List DiskSpec
unfolding disk_spec
disk_specs sc i [] = []
disk_specs sc i (d ∷ rest) = disk_spec sc i d ∷ disk_specs sc (i + 1) rest

unfoldable pub nic_spec : ℕ → Nic → NicSpec
unfolding first_non_empty
nic_spec i n = record {
  index = i;
  bridge = first_non_empty (n.bridge ∷ lit "vmbr0" ∷ []);
  model = lit "virtio";
  mac = n.mac;
  firewall = false;
  vlan = 0;
}

unfoldable pub nic_specs : ℕ → List Nic → List NicSpec
unfolding nic_spec
nic_specs i [] = []
nic_specs i (n ∷ rest) = nic_spec i n ∷ nic_specs (i + 1) rest

unfoldable pub efi_storage : Option StorageClasses → List Disk → Str
unfolding resolve_storage first_non_empty
efi_storage sc [] = lit "local-lvm"
efi_storage sc (d ∷ rest) = first_non_empty ((resolve_storage sc d).0 ∷ lit "local-lvm" ∷ [])

unfoldable pub efi_spec : Option StorageClasses → Str → List Disk → Option EfiDiskSpec
unfolding efi_storage
efi_spec sc bios disks =
    if equal_fold bios (lit "ovmf")
    then some
        (record { storage = efi_storage sc disks; format = lit "raw"; pre_enrolled_keys = false })
    else none

unfoldable pub install_iso : Option IsoConfig → Str
install_iso none = []
install_iso (some iso) =
    if not (is_empty iso.image) && not (is_empty iso.storage)
    then concat (iso.storage ∷ lit ":iso/" ∷ iso.image ∷ [])
    else []

abbrev pub no_resources : Resources
no_resources = record { memory = 0; cores = 0; sockets = 0; cpu = []; bios = []; machine = [] }

unfoldable pub resources_of : Option Resources → Resources
resources_of none = no_resources
resources_of (some r) = r

unfoldable pub build_create_opts : Str → Target → CreateOpts
unfolding resources_of efi_spec disk_specs nic_specs install_iso resolved
build_create_opts node_name t =
    let res = resources_of t.node.resources in
    let sc = resolved t.env.spec.storage_classes in
    record {
      node = t.node.proxmox.node_name;
      vmid = t.node.proxmox.vmid;
      name = node_name;
      memory = res.memory;
      cores = res.cores;
      sockets = res.sockets;
      cpu = res.cpu;
      bios = res.bios;
      machine = res.machine;
      scsi_hw = lit "virtio-scsi-single";
      os_type = lit "l26";
      tags = t.node.tags;
      start_at_boot = false;
      protection = false;
      efi_disk = efi_spec sc res.bios t.node.disks;
      disks = disk_specs sc 0 t.node.disks;
      nics = nic_specs 0 t.node.nics;
      iso_file = install_iso t.iso;
    }

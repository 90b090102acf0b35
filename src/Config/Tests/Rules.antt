-- ===== src/Config/Tests/Rules.antt =====
-- A manifest of two nodes that meets the rules, and the theorems on the rules for it.
use mathlib.Core.List.{Nodup}
use proxclt.Base.{
  ℕ, Str, String, lit, str_eq, is_empty, split, false, none, some, List, [], ◌∷◌, length, ◌≤◌, ok,
  ◌≡◌, ◌↔◌, refl, All,
}
use proxclt.Config.Model.{
  Dict, Nic, Disk, Node, Hypervisor, Networks, StorageClasses, Cluster, Items, slice, mapping,
  string, nil, cons, end, field, Linux, Ref, resolved, resolved_at, Env,
}
use proxclt.Config.Validators.{
  validate_uniqueness, validate_rac_invariants, validate_nic_network_refs, check_nodes,
  check_hostname, check_vmid, check_nics, check_mac, check_ip, has_name, vm_owner, mac_owner,
  ip_owner, has_mac, zone_address, first_part,
}
use proxclt.Config.Validators.Claims.{claims}
use proxclt.Config.Validators.Uniqueness.{validate_uniqueness_iff}
use proxclt.Config.Validators.References.{
  Defined, EachNode, HasUsage, validate_nic_network_refs_iff, validate_rac_invariants_iff,
}
use proxclt.Config.Validate.{StructTags}

abbrev pub inline_of : {A : Type 0} → A → Ref A
inline_of a = record { ref = []; value = none; inline = some a }

abbrev pub nic : String → String → Nic
nic usage mac = record {
  name_field = lit "eth0";
  bridge = [];
  mac = lit mac;
  usage = lit usage;
  bootproto = [];
  controlled_by = [];
  network = lit "lan";
  ipv4 = none;
  ipv4_addresses = [];
  hostname_aliases = [];
  shared_with_cluster = false;
}

abbrev pub disk : String → String → String → Disk
disk storage_class storage tag = record {
  id = 0;
  size = lit "64G";
  storage_class = lit storage_class;
  storage = lit storage;
  interface = [];
  shared = false;
  tag = lit tag;
  role = [];
}

abbrev pub node : ℕ → List Nic → List Disk → Node
node vmid nics disks = record {
  proxmox = record { node_name = lit "pve"; vmid = vmid };
  ips = [];
  resources = none;
  nics = nics;
  disks = disks;
  tags = [];
}

abbrev first_node : Str × Node
first_node =
    (lit "a", node 100 (nic "public" "" ∷ nic "private" "auto" ∷ []) (disk "fast" "" "root" ∷ []))

abbrev second_node : Str × Node
second_node = (lit "b", node 101 (nic "public" "" ∷ nic "private" "" ∷ []) [])

abbrev pub hypervisor_of : Dict Node → Hypervisor
hypervisor_of nodes = record {
  kind = lit "Hypervisor";
  nodes = nodes;
  defaults = none;
  iso = none;
  kickstart = none;
}

abbrev pub networks : Networks
networks = record {
  kind = lit "Networks";
  zones = (lit "lan", record { cidr = lit "10.0.0.0/24"; gateway = []; dns = [] }) ∷ [];
}

abbrev storage_classes : StorageClasses
storage_classes = record {
  kind = lit "StorageClasses";
  classes = (lit "fast", record { backend = lit "nvme"; shared = false }) ∷ [];
}

abbrev pub cluster : Cluster
cluster = record {
  kind = lit "Cluster";
  type = lit "oracle-rac";
  scan_name = [];
  scan_ips = lit "10.0.0.1" ∷ lit "10.0.0.2" ∷ lit "10.0.0.3" ∷ [];
  interconnect_subnet = [];
  hosts_entries = [];
}

abbrev layout : Items
layout = cons (mapping (field (lit "tag") (string (lit "root")) end)) nil

abbrev pub linux : Linux
linux = record {
  kind = lit "Linux";
  raw = field (lit "disk_layout") (mapping (field (lit "additional") (slice layout) end)) end;
}

abbrev pub env_of : Dict Node → Env
env_of nodes = record {
  version = lit "1";
  kind = lit "Env";
  metadata = record {
    name = lit "lab";
    domain = [];
    proxmox_context = [];
    dbx_context = [];
    tags = [];
    description = [];
  };
  extends = [];
  spec = record {
    hypervisor = inline_of (hypervisor_of nodes);
    linux = some (inline_of linux);
    networks = inline_of networks;
    storage_classes = inline_of storage_classes;
    cluster = some (inline_of cluster);
    databases = [];
  };
}

abbrev both_nodes : Dict Node
both_nodes = first_node ∷ second_node ∷ []

abbrev swapped_nodes : Dict Node
swapped_nodes = second_node ∷ first_node ∷ []

unique : validate_uniqueness (env_of both_nodes) ≡ ok tt
unfolding validate_uniqueness resolved check_nodes check_hostname check_vmid check_nics check_mac
    check_ip has_name vm_owner mac_owner ip_owner has_mac zone_address first_part lit str_eq
    is_empty split
unique = refl

validate_uniqueness_iff_example :
    (validate_uniqueness (env_of both_nodes) ≡ ok tt) ↔ Nodup (claims both_nodes)
validate_uniqueness_iff_example =
    validate_uniqueness_iff (env_of both_nodes) (hypervisor_of both_nodes) (unfold resolved in refl)

validate_nic_network_refs_iff_example :
    (validate_nic_network_refs (env_of both_nodes) ≡ ok tt)
    ↔ EachNode (λ n. All (λ c. Defined networks.zones c.network) n.nics) both_nodes
validate_nic_network_refs_iff_example =
    validate_nic_network_refs_iff (env_of both_nodes) (hypervisor_of both_nodes) networks
      (unfold resolved in refl) (unfold resolved in refl)

validate_rac_invariants_iff_example : (validate_rac_invariants (env_of both_nodes) ≡ ok tt) ↔ (
    (3 ≤ length cluster.scan_ips)
    × EachNode (λ n. HasUsage "public" n × HasUsage "private" n) both_nodes)
validate_rac_invariants_iff_example =
    validate_rac_invariants_iff (env_of both_nodes) cluster (hypervisor_of both_nodes)
      (unfold resolved_at resolved in refl) refl (unfold resolved in refl)

-- Struct tags that accept everything.
abbrev pub lenient : StructTags
lenient = record {
  check_env = λ _. ok tt;
  check_hypervisor = λ _. ok tt;
  check_networks = λ _. ok tt;
  check_storage_classes = λ _. ok tt;
  check_cluster = λ _. ok tt;
  check_linux = λ _. ok tt;
  check_database = λ _. ok tt;
}

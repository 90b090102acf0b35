-- ===== src/Config/Model.antt =====
-- The manifest types of pkg/config: hypervisor.go, networks.go, storage_classes.go, cluster.go,
-- linux.go, database.go and env.go. A Go map is the list of its entries, in the order in which one
-- `range` visits them.
use proxclt.Base.{ℕ, Str, str_eq, Bool, if◌then◌else◌, Option, none, some, List, [], ◌∷◌}

-- A map with string keys.
abbrev pub Dict {ℓ} : Type ℓ → Type ℓ
Dict V = List (Str × V)

-- `m[k]` with its second result.
unfoldable pub lookup {ℓ} : {V : Type ℓ} → Str → Dict V → Option V
lookup k [] = none
lookup k ((j, v) ∷ m) = if str_eq j k then some v else lookup k m

pub record Resources : Type 0 where
  pub memory : ℕ
  pub cores : ℕ
  pub sockets : ℕ
  pub cpu : Str
  pub bios : Str
  pub machine : Str

pub record Ipv4Config : Type 0 where
  pub address : Str
  pub gateway : Str
  pub dns : List Str

pub record Nic : Type 0 where
  pub name_field : Str
  pub bridge : Str
  pub mac : Str
  pub usage : Str
  pub bootproto : Str
  pub controlled_by : Str
  pub network : Str
  pub ipv4 : Option Ipv4Config
  pub ipv4_addresses : List Str
  pub hostname_aliases : List Str
  pub shared_with_cluster : Bool

pub record Disk : Type 0 where
  pub id : ℕ
  pub size : Str
  pub storage_class : Str
  pub storage : Str
  pub interface : Str
  pub shared : Bool
  pub tag : Str
  pub role : Str

pub record ProxmoxRef : Type 0 where
  pub node_name : Str
  pub vmid : ℕ

pub record Node : Type 0 where
  pub proxmox : ProxmoxRef
  pub ips : Dict Str
  pub resources : Option Resources
  pub nics : List Nic
  pub disks : List Disk
  pub tags : List Str

pub record NodeDefaults : Type 0 where
  pub resources : Option Resources
  pub nics : List Nic
  pub disks : List Disk
  pub tags : List Str

pub record IsoConfig : Type 0 where
  pub storage : Str
  pub image : Str
  pub guest_os_type : Str
  pub kickstart_storage : Str
  pub bootloader_dir : Str

pub record KickstartRepo : Type 0 where
  pub name : Str
  pub base_url : Str
  pub mirror_list : Str
  pub cost : ℕ

pub record PackagesConfig : Type 0 where
  pub base : List Str
  pub post : List Str

pub record AdditionalUser : Type 0 where
  pub name : Str
  pub wheel : Bool
  pub ssh_key : Str

-- `sudo` and `firewall` are the one flag of SudoConfig and KSFirewall.
pub record KickstartConfig : Type 0 where
  pub distro : Str
  pub timezone : Str
  pub keyboard_layout : Str
  pub lang : Str
  pub mode : Str
  pub ipv6_enabled : Bool
  pub install_url : Str
  pub chrony_servers : List Str
  pub sudo : Option Bool
  pub packages : Option PackagesConfig
  pub repos : List KickstartRepo
  pub firewall : Option Bool
  pub update_system : Bool
  pub ssh_keys : Dict (List Str)
  pub additional_users : List AdditionalUser

pub record Hypervisor : Type 0 where
  pub kind : Str
  pub nodes : Dict Node
  pub defaults : Option NodeDefaults
  pub iso : Option IsoConfig
  pub kickstart : Option KickstartConfig

pub record NetworkZone : Type 0 where
  pub cidr : Str
  pub gateway : Str
  pub dns : List Str

pub record Networks : Type 0 where
  pub kind : Str
  pub zones : Dict NetworkZone

pub record StorageClass : Type 0 where
  pub backend : Str
  pub shared : Bool

pub record StorageClasses : Type 0 where
  pub kind : Str
  pub classes : Dict StorageClass

pub record HostEntry : Type 0 where
  pub ip : Str
  pub names : List Str

pub record Cluster : Type 0 where
  pub kind : Str
  pub type : Str
  pub scan_name : Str
  pub scan_ips : List Str
  pub interconnect_subnet : Str
  pub hosts_entries : List HostEntry

-- A value of type `any` as yaml.v3 decodes it.
mutual
  pub data Value : Type 0 where
    null : Value
    bool : Bool → Value
    int : ℕ → Value
    string : Str → Value
    slice : Items → Value
    mapping : Fields → Value

  pub data Items : Type 0 where
    nil : Items
    cons : Value → Items → Items

  pub data Fields : Type 0 where
    end : Fields
    field : Str → Value → Fields → Fields

pub record Linux : Type 0 where
  pub kind : Str
  pub raw : Fields

pub record Database : Type 0 where
  pub kind : Str
  pub raw : Fields

-- A value that is inlined, or referenced by the path of a file and loaded later.
pub record Ref (A : Type 0) : Type 0 where
  pub ref : Str
  pub value : Option A
  pub inline : Option A

unfoldable pub resolved : {A : Type 0} → Ref A → Option A
resolved r = elim r.value [ some v ↦ some v | none ↦ r.inline ]

-- Resolved on a pointer that may be nil.
unfoldable pub resolved_at : {A : Type 0} → Option (Ref A) → Option A
resolved_at none = none
resolved_at (some r) = resolved r

pub record EnvMetadata : Type 0 where
  pub name : Str
  pub domain : Str
  pub proxmox_context : Str
  pub dbx_context : Str
  pub tags : Dict Str
  pub description : Str

pub record EnvSpec : Type 0 where
  pub hypervisor : Ref Hypervisor
  pub linux : Option (Ref Linux)
  pub networks : Ref Networks
  pub storage_classes : Ref StorageClasses
  pub cluster : Option (Ref Cluster)
  pub databases : List (Ref Database)

-- The hooks of an env are not modelled: no code of the repository reads them.
pub record Env : Type 0 where
  pub version : Str
  pub kind : Str
  pub metadata : EnvMetadata
  pub extends : Str
  pub spec : EnvSpec

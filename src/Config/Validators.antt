-- ===== src/Config/Validators.antt =====
-- pkg/config/validators.go: the cross-field rules and the whole validation.
pub mod Claims
pub mod Uniqueness
pub mod References
use proxclt.Base.{
  ℕ, ◌+◌, ◌==◌, ltb, length, Str, lit, itoa, str_eq, is_empty, split, Bool, true, false, not, ◌&&◌,
  ◌||◌, if◌then◌else◌, Option, none, some, List, [], ◌∷◌, ◌++◌, Error, errorf, wrapf, Result, ok,
  err, ◌>>=◌, ◌>>◌, joined,
}
use proxclt.Config.Model.{
  Dict, lookup, Nic, Disk, Node, Hypervisor, Networks, StorageClasses, Cluster, Value, Items,
  Fields, null, bool, int, string, slice, mapping, nil, cons, end, field, Linux, Database, Ref,
  resolved, resolved_at, Env, Ipv4Config,
}

-- The maps of validateUniqueness. `ips` is keyed by the zone and the address, in place of a map of
-- maps.
pub record Seen : Type 0 where
  pub hostnames : List Str
  pub vm_ids : List (ℕ × Str)
  pub macs : List (Str × Str)
  pub ips : List (Str × Str × Str)

abbrev pub nothing_seen : Seen
nothing_seen = record { hostnames = []; vm_ids = []; macs = []; ips = [] }

unfoldable pub has_name : Str → List Str → Bool
has_name k [] = false
has_name k (j ∷ m) = str_eq j k || has_name k m

unfoldable pub vm_owner : ℕ → List (ℕ × Str) → Option Str
vm_owner k [] = none
vm_owner k ((j, owner) ∷ m) = if j == k then some owner else vm_owner k m

unfoldable pub mac_owner : Str → List (Str × Str) → Option Str
mac_owner k [] = none
mac_owner k ((j, owner) ∷ m) = if str_eq j k then some owner else mac_owner k m

unfoldable pub ip_owner : Str → Str → List (Str × Str × Str) → Option Str
ip_owner zone addr [] = none
ip_owner zone addr ((z, a, owner) ∷ m) =
    if str_eq z zone && str_eq a addr then some owner else ip_owner zone addr m

unfoldable pub check_hostname : Str → Seen → Result Seen
check_hostname name s =
    if has_name name s.hostnames
    then err (errorf "duplicate hostname: %q" (name ∷ []))
    else ok (record s { hostnames = name ∷ s.hostnames })

unfoldable pub check_vmid : Str → ℕ → Seen → Result Seen
check_vmid name vmid s = elim (vm_owner vmid s.vm_ids) [
  | some prev ↦ err (errorf "duplicate vm_id %d: %q and %q" (itoa vmid ∷ prev ∷ name ∷ []))
  | none ↦ ok (record s { vm_ids = (vmid, name) ∷ s.vm_ids })
]

-- Does the NIC name a hardware address of its own?
unfoldable pub has_mac : Nic → Bool
has_mac nic = not (is_empty nic.mac) && not (str_eq nic.mac (lit "auto"))

unfoldable pub check_mac : Str → Nic → Seen → Result Seen
check_mac name nic s =
    if has_mac nic
    then (elim (mac_owner nic.mac s.macs) [
      | some prev ↦ err (errorf "duplicate MAC %s: %q and %q" (nic.mac ∷ prev ∷ name ∷ []))
      | none ↦ ok (record s { macs = (nic.mac, name) ∷ s.macs })
    ])
    else ok s

unfoldable pub first_part : List Str → Str
first_part [] = []
first_part (s ∷ r) = s

-- The address of a NIC within a zone, without the length of the prefix.
unfoldable pub zone_address : Nic → Option Str
zone_address nic = elim nic.ipv4 [
  | none ↦ none
  | some v ↦
      if not (is_empty nic.network) && not (is_empty v.address)
      then some (first_part (split 47 v.address))
      else none
]

unfoldable pub check_ip : Str → Nic → Seen → Result Seen
check_ip name nic s = elim (zone_address nic) [
  | none ↦ ok s
  | some addr ↦ elim (ip_owner nic.network addr s.ips) [
    | some prev ↦
        err (
          errorf "duplicate IP %s in network %q: %q and %q" (addr ∷ nic.network ∷ prev ∷ name ∷ []))
    | none ↦ ok (record s { ips = (nic.network, addr, name) ∷ s.ips })
  ]
]

unfoldable pub check_nics : Str → List Nic → Seen → Result Seen
check_nics name [] s = ok s
check_nics name (nic ∷ rest) s = do
  s₁ ← check_mac name nic s
  s₂ ← check_ip name nic s₁
  check_nics name rest s₂

unfoldable pub check_nodes : Dict Node → Seen → Result Seen
check_nodes [] s = ok s
check_nodes ((name, node) ∷ rest) s = do
  s₁ ← check_hostname name s
  s₂ ← check_vmid name node.proxmox.vmid s₁
  s₃ ← check_nics name node.nics s₂
  check_nodes rest s₃

abbrev pub finished : Result Seen → Result (Unit {0})
finished (ok s) = ok tt
finished (err e) = err e

unfoldable pub validate_uniqueness : Env → Result (Unit {0})
validate_uniqueness env = elim (resolved env.spec.hypervisor) [
  | none ↦ ok tt
  | some h ↦ finished (check_nodes h.nodes nothing_seen)
]

unfoldable pub has_usage : Str → List Nic → Bool
has_usage u [] = false
has_usage u (nic ∷ rest) = str_eq nic.usage u || has_usage u rest

unfoldable pub check_rac_nodes : Dict Node → Result (Unit {0})
check_rac_nodes [] = ok tt
check_rac_nodes ((name, node) ∷ rest) =
    if not (has_usage (lit "public") node.nics)
    then err (errorf "oracle-rac: node %q missing public NIC" (name ∷ []))
    else if not (has_usage (lit "private") node.nics)
    then err (errorf "oracle-rac: node %q missing private NIC" (name ∷ []))
    else check_rac_nodes rest

unfoldable pub validate_rac_invariants : Env → Result (Unit {0})
validate_rac_invariants env = elim (resolved_at env.spec.cluster) [
  | none ↦ ok tt
  | some c ↦
      if not (str_eq c.type (lit "oracle-rac"))
      then ok tt
      else if ltb (length c.scan_ips) 3
      then err
          (errorf "oracle-rac: scan_ips must have ≥3 IPs, got %d" (itoa (length c.scan_ips) ∷ []))
      else (elim (resolved env.spec.hypervisor) [ none ↦ ok tt | some h ↦ check_rac_nodes h.nodes ])
]

-- One pass over the NICs of a node from index `i`.
unfoldable pub check_nic_refs : Networks → Str → ℕ → List Nic → Result (Unit {0})
check_nic_refs n name i [] = ok tt
check_nic_refs n name i (nic ∷ rest) =
    let later = check_nic_refs n name (i + 1) rest in
    if is_empty nic.network then later else (elim (lookup nic.network n.zones) [
      | some z ↦ later
      | none ↦
          err (errorf "node %q nics[%d]: network %q not defined" (name ∷ itoa i ∷ nic.network ∷ []))
    ])

unfoldable pub check_network_refs : Networks → Dict Node → Result (Unit {0})
check_network_refs n [] = ok tt
check_network_refs n ((name, node) ∷ rest) =
    check_nic_refs n name 0 node.nics >> check_network_refs n rest

unfoldable pub validate_nic_network_refs : Env → Result (Unit {0})
validate_nic_network_refs env = elim (resolved env.spec.hypervisor) [
  | none ↦ ok tt
  | some h ↦ elim (resolved env.spec.networks) [
    | none ↦ ok tt
    | some n ↦ check_network_refs n h.nodes
  ]
]

unfoldable pub check_disk_refs : StorageClasses → Str → ℕ → List Disk → Result (Unit {0})
check_disk_refs sc name i [] = ok tt
check_disk_refs sc name i (d ∷ rest) =
    let later = check_disk_refs sc name (i + 1) rest in
    if is_empty d.storage_class then later else (elim (lookup d.storage_class sc.classes) [
      | some c ↦ later
      | none ↦ err (
          errorf "node %q disks[%d]: storage_class %q not defined"
            (name ∷ itoa i ∷ d.storage_class ∷ []))
    ])

unfoldable pub check_storage_refs : StorageClasses → Dict Node → Result (Unit {0})
check_storage_refs sc [] = ok tt
check_storage_refs sc ((name, node) ∷ rest) =
    check_disk_refs sc name 0 node.disks >> check_storage_refs sc rest

unfoldable pub validate_disk_storage_refs : Env → Result (Unit {0})
validate_disk_storage_refs env = elim (resolved env.spec.hypervisor) [
  | none ↦ ok tt
  | some h ↦ elim (resolved env.spec.storage_classes) [
    | none ↦ ok tt
    | some sc ↦ check_storage_refs sc h.nodes
  ]
]

-- ===== src/Config/Validators/References.antt =====
-- The rules of pkg/config/validators.go on references accept exactly the manifests in which every
-- name is defined.
use proxclt.Base.{
  ℕ, ◌+◌, Str, String, lit, str_eq, str_eq_iff, is_empty_iff, true, some, List, [], ◌∷◌, All, Any,
  Any-uncons, here, there, Result, ok, err, ◌>>◌, ◌≡◌, ◌↔◌, ◌⊎◌, inl, inr, refl, arith, Bool-cases,
  Option-cases, ltb, ltb→lt, length, ◌≤◌,
}
use proxclt.Config.Model.{
  Dict, lookup, Nic, Disk, Node, Hypervisor, Networks, StorageClasses, Cluster, resolved,
  resolved_at, Env,
}
use proxclt.Config.Validators.{
  check_nic_refs, check_network_refs, validate_nic_network_refs, check_disk_refs,
  check_storage_refs, validate_disk_storage_refs, has_usage, check_rac_nodes,
  validate_rac_invariants,
}

-- The key is in the map.
abbrev pub HasKey : {V : Type 0} → Str → Dict V → Type 0
HasKey {V} k m = (v : V) × (lookup k m ≡ some v)

-- A name is empty, or defined in the catalogue.
abbrev pub Defined : {V : Type 0} → Dict V → Str → Type 0
Defined m k = (k ≡ []) ⊎ HasKey k m

-- Every node, whatever its name, satisfies the predicate.
abbrev pub EachNode : (Node → Type 0) → Dict Node → Type 0
EachNode P nodes = All (λ n. P (n.1)) nodes

>>-ok : {m k : Result (Unit {0})} → (m >> k) ≡ ok tt → (m ≡ ok tt) × (k ≡ ok tt)
>>-ok {m} {k} h = both m k h
  where
    both : (m k : Result (Unit {0})) → (m >> k) ≡ ok tt → (m ≡ ok tt) × (k ≡ ok tt)
    both (ok u) k h = (refl, h)
    both (err e) k h = cc

module _ (n : Networks) where
  check_nic_refs_iff :
      (name : Str) (i : ℕ) (nics : List Nic)
      → (check_nic_refs n name i nics ≡ ok tt) ↔ All (λ c. Defined n.zones c.network) nics
  unfolding check_nic_refs
  check_nic_refs_iff name i [] = (λ _. tt, λ _. refl)
  check_nic_refs_iff name i (c ∷ rest) =
      let ih = check_nic_refs_iff name (i + 1) rest in
      elim (Option-cases (lookup c.network n.zones)) [
        | inr (z, found) ↦ (
          λ h. (inr (z, found), ih.0 (ground (arith, found))),
          λ h. ground (arith, found, ih.1 h.1),
        )
        | inl missing ↦ (
          λ h. (
            inl ((is_empty_iff c.network).0 (ground (arith, missing))),
            ih.0 (ground (arith, missing)),
          ),
          λ h. ground (arith, missing, h.0, is_empty_iff c.network, ih.1 h.1),
        )
      ]

  check_network_refs_iff :
      (nodes : Dict Node)
      → (check_network_refs n nodes ≡ ok tt)
        ↔ EachNode (λ node. All (λ c. Defined n.zones c.network) node.nics) nodes
  unfolding check_network_refs
  check_network_refs_iff [] = (λ _. tt, λ _. refl)
  check_network_refs_iff ((name, node) ∷ rest) =
      let one = check_nic_refs_iff name 0 node.nics in
      let ih = check_network_refs_iff rest in
      (λ h. let (a, b) = >>-ok h in (one.0 a, ih.0 b), λ h. rw (one.1 h.0) (ih.1 h.1))

-- Where the hypervisor and the networks are resolved, the rule accepts exactly the manifests in
-- which each NIC names no network or one that is defined.
pub validate_nic_network_refs_iff :
    (env : Env) (h : Hypervisor) (n : Networks)
    → resolved env.spec.hypervisor ≡ some h
    → resolved env.spec.networks ≡ some n
    → (validate_nic_network_refs env ≡ ok tt)
      ↔ EachNode (λ node. All (λ c. Defined n.zones c.network) node.nics) h.nodes
unfolding validate_nic_network_refs
validate_nic_network_refs_iff env h n e f =
    rw (e, f, validate_nic_network_refs) (check_network_refs_iff n h.nodes)

module _ (sc : StorageClasses) where
  check_disk_refs_iff :
      (name : Str) (i : ℕ) (disks : List Disk)
      → (check_disk_refs sc name i disks ≡ ok tt)
        ↔ All (λ d. Defined sc.classes d.storage_class) disks
  unfolding check_disk_refs
  check_disk_refs_iff name i [] = (λ _. tt, λ _. refl)
  check_disk_refs_iff name i (d ∷ rest) =
      let ih = check_disk_refs_iff name (i + 1) rest in
      elim (Option-cases (lookup d.storage_class sc.classes)) [
        | inr (z, found) ↦ (
          λ h. (inr (z, found), ih.0 (ground (arith, found))),
          λ h. ground (arith, found, ih.1 h.1),
        )
        | inl missing ↦ (
          λ h. (
            inl ((is_empty_iff d.storage_class).0 (ground (arith, missing))),
            ih.0 (ground (arith, missing)),
          ),
          λ h. ground (arith, missing, h.0, is_empty_iff d.storage_class, ih.1 h.1),
        )
      ]

  check_storage_refs_iff :
      (nodes : Dict Node)
      → (check_storage_refs sc nodes ≡ ok tt)
        ↔ EachNode (λ node. All (λ d. Defined sc.classes d.storage_class) node.disks) nodes
  unfolding check_storage_refs
  check_storage_refs_iff [] = (λ _. tt, λ _. refl)
  check_storage_refs_iff ((name, node) ∷ rest) =
      let one = check_disk_refs_iff name 0 node.disks in
      let ih = check_storage_refs_iff rest in
      (λ h. let (a, b) = >>-ok h in (one.0 a, ih.0 b), λ h. rw (one.1 h.0) (ih.1 h.1))

-- Where the hypervisor and the storage classes are resolved, the rule accepts exactly the manifests
-- in which each disk names no storage class or one that is defined.
pub validate_disk_storage_refs_iff :
    (env : Env) (h : Hypervisor) (sc : StorageClasses)
    → resolved env.spec.hypervisor ≡ some h
    → resolved env.spec.storage_classes ≡ some sc
    → (validate_disk_storage_refs env ≡ ok tt)
      ↔ EachNode (λ node. All (λ d. Defined sc.classes d.storage_class) node.disks) h.nodes
unfolding validate_disk_storage_refs
validate_disk_storage_refs_iff env h sc e f =
    rw (e, f, validate_disk_storage_refs) (check_storage_refs_iff sc h.nodes)

abbrev pub HasUsage : String → Node → Type 0
HasUsage u node = Any (λ (c : Nic). c.usage ≡ lit u) node.nics

has_usage_iff :
    (u : Str) (nics : List Nic) → (has_usage u nics ≡ true) ↔ Any (λ (c : Nic). c.usage ≡ u) nics
unfolding has_usage
has_usage_iff u [] = (λ h. cc, λ h. elim h [ ])
has_usage_iff u (c ∷ rest) =
    let ih = has_usage_iff u rest in
    let at = str_eq_iff c.usage u in
    elim (Bool-cases (str_eq c.usage u)) [
      | inl same ↦ (λ _. here (at.0 same), λ _. rw same)
      | inr other ↦ (
        λ h. there (ih.0 (rw other at h)),
        λ a. elim (Any-uncons a) [ inl e ↦ cc (at.1 e, other) | inr later ↦ rw other (ih.1 later) ],
      )
    ]

check_rac_nodes_iff :
    (nodes : Dict Node)
    → (check_rac_nodes nodes ≡ ok tt)
      ↔ EachNode (λ node. HasUsage "public" node × HasUsage "private" node) nodes
unfolding check_rac_nodes
check_rac_nodes_iff [] = (λ _. tt, λ _. refl)
check_rac_nodes_iff ((name, node) ∷ rest) =
    let ih = check_rac_nodes_iff rest in
    let public = has_usage_iff (lit "public") node.nics in
    let private = has_usage_iff (lit "private") node.nics in
    elim (Bool-cases (has_usage (lit "public") node.nics)) [
      | inr neither ↦ (λ h. cc (rw neither at h), λ h. cc (public.1 h.0.0, neither))
      | inl yes₁ ↦ elim (Bool-cases (has_usage (lit "private") node.nics)) [
        | inr half ↦ (λ h. cc (rw (yes₁, half) at h), λ h. cc (private.1 h.0.1, half))
        | inl yes₂ ↦ (
          λ h. ((public.0 yes₁, private.0 yes₂), ih.0 (rw (yes₁, yes₂) at h)),
          λ h. rw (yes₁, yes₂) (ih.1 h.1),
        )
      ]
    ]

-- A cluster of the type oracle-rac with a resolved hypervisor is accepted exactly if it has three
-- SCAN addresses or more and every node has a public and a private NIC.
pub validate_rac_invariants_iff :
    (env : Env) (c : Cluster) (h : Hypervisor)
    → resolved_at env.spec.cluster ≡ some c
    → c.type ≡ lit "oracle-rac"
    → resolved env.spec.hypervisor ≡ some h
    → (validate_rac_invariants env ≡ ok tt) ↔ (
        (3 ≤ length c.scan_ips)
        × EachNode (λ node. HasUsage "public" node × HasUsage "private" node) h.nodes)
unfolding validate_rac_invariants
validate_rac_invariants_iff env c h e t f =
    let nodes = check_rac_nodes_iff h.nodes in
    let typed = (str_eq_iff c.type (lit "oracle-rac")).1 t in
    elim (Bool-cases (ltb (length c.scan_ips) 3)) [
      | inl few ↦
          rw (e, validate_rac_invariants, typed, few)
            (λ p. cc p, λ p. absurd (omega (arith, ltb→lt (length c.scan_ips) 3 few)))
      | inr enough ↦
          rw (e, validate_rac_invariants, typed, enough, f)
            (λ p. (ground arith, nodes.0 p), λ p. nodes.1 p.1)
    ]

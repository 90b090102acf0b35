-- ===== src/Config/Validators/Uniqueness.antt =====
-- validateUniqueness of pkg/config/validators.go accepts exactly the manifests without duplicates.
use mathlib.Core.Path.{subst}
use mathlib.Core.Logic.{∥∥₁_elim}
use mathlib.Core.List.Perm
use mathlib.Core.List.{Nodup, Perm, Permᴰ, Perm-prop, perm_append_comm}
use proxclt.Base.{
  ℕ, Str, Bool, some, List, [], ◌∷◌, ◌++◌, append_assoc, errorf, itoa, Result, ok, ◌≡◌, ◌↔◌, inl,
  inr, refl, ap, sym, ◌∙◌, Bool-cases, Option-cases,
}
use proxclt.Config.Model.{Dict, Nic, Node, Hypervisor, resolved, Env}
use proxclt.Config.Validators.{
  Seen, nothing_seen, vm_owner, mac_owner, ip_owner, check_hostname, check_vmid, check_mac,
  check_ip, check_nics, check_nodes, validate_uniqueness, has_mac, zone_address, finished,
}
use proxclt.Config.Validators.Claims.{
  Claim, host, vm, mac, ip, mac_claims, ip_claims, nic_claims, node_claims, claims, taken, stake,
  Untaken, view, Lays, laid, refused, Lays-nothing, Lays-bind, Lays-one, Lays-asked,
  Untaken-nothing_seen,
}

check_hostname-Lays :
    (name : Str) (s : Seen) → Lays (host name ∷ []) (view s) (check_hostname name s)
unfolding check_hostname taken stake
check_hostname-Lays name s =
    Lays-one name (host name) s (check_hostname name s) (λ f. rw f)
      (λ t. (errorf "duplicate hostname: %q" (name ∷ []), rw t))

check_vmid-Lays :
    (name : Str) (vmid : ℕ) (s : Seen) → Lays (vm vmid ∷ []) (view s) (check_vmid name vmid s)
unfolding check_vmid taken stake
check_vmid-Lays name vmid s =
    Lays-asked name (vm vmid) s (vm_owner vmid s.vm_ids)
      (λ prev. errorf "duplicate vm_id %d: %q and %q" (itoa vmid ∷ prev ∷ name ∷ [])) refl

check_mac-Lays :
    (name : Str) (nic : Nic) (s : Seen) → Lays (mac_claims nic) (view s) (check_mac name nic s)
unfolding check_mac taken stake
check_mac-Lays name nic s = elim (Bool-cases (has_mac nic)) [
  | inl h ↦ rw h (
      Lays-asked name (mac nic.mac) s (mac_owner nic.mac s.macs)
        (λ prev. errorf "duplicate MAC %s: %q and %q" (nic.mac ∷ prev ∷ name ∷ [])) refl)
  | inr h ↦ rw h (Lays-nothing s)
]

check_ip-Lays :
    (name : Str) (nic : Nic) (s : Seen) → Lays (ip_claims nic) (view s) (check_ip name nic s)
unfolding check_ip taken stake
check_ip-Lays name nic s = elim (Option-cases (zone_address nic)) [
  | inr (addr, h) ↦
      rw (h, check_ip, ip_claims)
        (Lays-asked name (ip nic.network addr) s (ip_owner nic.network addr s.ips)
          (λ prev.
            errorf "duplicate IP %s in network %q: %q and %q"
              (addr ∷ nic.network ∷ prev ∷ name ∷ []))
          refl)
  | inl h ↦ rw (h, check_ip, ip_claims) (Lays-nothing s)
]

check_nics-Lays :
    (name : Str) (nics : List Nic) (s : Seen)
    → Lays (nic_claims nics) (view s) (check_nics name nics s)
unfolding check_nics
check_nics-Lays name [] s = Lays-nothing s
check_nics-Lays name (nic ∷ rest) s =
    Lays-bind (mac_claims nic) (ip_claims nic ++ nic_claims rest) (view s) (check_mac name nic s) _
      (check_mac-Lays name nic s)
      (λ s₁.
        Lays-bind (ip_claims nic) (nic_claims rest) (view s₁) (check_ip name nic s₁)
          (check_nics name rest) (check_ip-Lays name nic s₁) (check_nics-Lays name rest))

check_nodes-Lays :
    (nodes : Dict Node) (s : Seen) → Lays (claims nodes) (view s) (check_nodes nodes s)
unfolding check_nodes
check_nodes-Lays [] s = Lays-nothing s
check_nodes-Lays ((name, node) ∷ rest) s =
    Lays-bind (host name ∷ []) (vm node.proxmox.vmid ∷ nic_claims node.nics ++ claims rest) (view s)
      (check_hostname name s) _ (check_hostname-Lays name s)
      (λ s₁.
        Lays-bind (vm node.proxmox.vmid ∷ []) (nic_claims node.nics ++ claims rest) (view s₁)
          (check_vmid name node.proxmox.vmid s₁) _ (check_vmid-Lays name node.proxmox.vmid s₁)
          (λ s₂.
            Lays-bind (nic_claims node.nics) (claims rest) (view s₂) (check_nics name node.nics s₂)
              (check_nodes rest) (check_nics-Lays name node.nics s₂) (check_nodes-Lays rest)))

finished-Lays :
    (cs : List Claim) (t : Claim → Bool) (r : Result Seen)
    → Lays cs t r
    → (finished r ≡ ok tt) ↔ Untaken cs t
finished-Lays cs t r (laid s free p v) = (λ _. free, λ _. ap finished p)
finished-Lays cs t r (refused e clash p) =
    (λ h. absurd (let q = sym h ∙ ap finished p in cc q), λ free. absurd (clash free))

validate_uniqueness-resolved :
    (env : Env) (h : Hypervisor)
    → resolved env.spec.hypervisor ≡ some h
    → validate_uniqueness env ≡ finished (check_nodes h.nodes nothing_seen)
unfolding validate_uniqueness
validate_uniqueness-resolved env h e = rw (e, validate_uniqueness)

-- Where the hypervisor is resolved, the rule accepts exactly the manifests in which no two nodes
-- share a name or a VM id, no two NICs share a MAC address of their own, and no two NICs share an
-- address within a zone.
pub validate_uniqueness_iff :
    (env : Env) (h : Hypervisor)
    → resolved env.spec.hypervisor ≡ some h
    → (validate_uniqueness env ≡ ok tt) ↔ Nodup (claims h.nodes)
validate_uniqueness_iff env h e =
    let checked =
      finished-Lays (claims h.nodes) (view nothing_seen) (check_nodes h.nodes nothing_seen)
        (check_nodes-Lays h.nodes nothing_seen) in
    let free = Untaken-nothing_seen (claims h.nodes) in
    let run = validate_uniqueness-resolved env h e in
    (λ p. free.0 (checked.0 (sym run ∙ p)), λ n. run ∙ checked.1 (free.1 n))

claims-Perm : {ns ms : Dict Node} → Permᴰ ns ms → Perm (claims ns) (claims ms)
claims-Perm Permᴰ.nil = Perm.refl []
claims-Perm (Permᴰ.cons {a} {b} {l₁} {l₂} e p) =
    subst (λ x. Perm (node_claims a ++ claims l₁) (node_claims x ++ claims l₂)) e
      (Perm.append_left (node_claims a) (claims-Perm p))
claims-Perm (Permᴰ.swap {a} {b} {a'} {b'} {l} e f) =
    subst (λ x. Perm (claims (a ∷ b ∷ l)) (node_claims x ++ (node_claims b' ++ claims l))) f
      (subst (λ x. Perm (claims (a ∷ b ∷ l)) (node_claims b ++ (node_claims x ++ claims l))) e
        (rw
          (
            ← append_assoc (node_claims a) (node_claims b) (claims l),
            ← append_assoc (node_claims b) (node_claims a) (claims l),
          )
          (Perm.append_right (claims l) (perm_append_comm (node_claims a) (node_claims b)))))
claims-Perm (Permᴰ.trans p q) = Perm.trans (claims-Perm p) (claims-Perm q)

-- The order in which the nodes are visited does not matter: Go ranges over a map in any order.
pub validate_uniqueness-Perm :
    (env env' : Env) (h h' : Hypervisor)
    → resolved env.spec.hypervisor ≡ some h
    → resolved env'.spec.hypervisor ≡ some h'
    → Perm h.nodes h'.nodes
    → validate_uniqueness env ≡ ok tt
    → validate_uniqueness env' ≡ ok tt
validate_uniqueness-Perm env env' h h' e e' p v =
    (validate_uniqueness_iff env' h' e').1
      (Perm.nodup (∥∥₁_elim p Perm-prop claims-Perm) ((validate_uniqueness_iff env h e).0 v))

-- ===== src/Workflow/Options/Accepted.antt =====
-- When CreateOpts.Validate accepts what buildCreateOpts makes.
use proxclt.Base.{
  refuse_if, ℕ, ◌+◌, ◌<◌, leb, Str, lit, itoa, is_empty, equal_fold, first_non_empty, Bool, true,
  false, ◌||◌, ◌>>◌, Bool-cases, Option, List, [], ◌∷◌, All, Error, errorf, Result, ok, err, ◌≡◌,
  ◌≢◌, ◌↔◌, ◌++◌, if◌then◌else◌, inl, inr, refl, arith,
}
use proxclt.Config.Model.{Nic, Disk, StorageClasses, resolved}
use proxclt.Proxmox.Specs.{lacks_efi, check_disks, check_bridges, check_opts}
use proxclt.Workflow.Options.{
  Target, resolve_storage, disk_spec, disk_specs, nic_spec, nic_specs, efi_spec, resources_of,
  build_create_opts,
}

refuse-then_iff :
    (b : Bool) (e : Error) (r : Result (Unit {0}))
    → (refuse_if b e >> r ≡ ok tt) ↔ ((b ≡ false) × (r ≡ ok tt))
refuse-then_iff true e r = (λ h. cc, λ h. cc)
refuse-then_iff false e r = (λ h. (refl, h), λ h. h.1)

non_empty_iff : (s : Str) → (is_empty s ≡ false) ↔ (s ≢ [])
unfolding is_empty
non_empty_iff [] = (λ h. cc, λ h. absurd (h refl))
non_empty_iff (a ∷ s) = (λ h e. cc, λ h. refl)

or_false_iff :
    (a b c : Bool) → (((a || b) || c) ≡ false) ↔ ((a ≡ false) × (b ≡ false) × (c ≡ false))
or_false_iff true b c = (λ h. cc, λ h. cc)
or_false_iff false true c = (λ h. cc, λ h. cc)
or_false_iff false false c = (λ h. (refl, refl, h), λ h. h.2)

-- A disk names a storage, and has a size.
abbrev pub Placed : Option StorageClasses → Disk → Type 0
Placed sc d = ((resolve_storage sc d).0 ≢ []) × (d.size ≢ [])

default-named : (s d : Str) → is_empty d ≡ false → is_empty (if is_empty s then d else s) ≡ false
unfolding is_empty
default-named [] d h = h
default-named (a ∷ s) d h = refl

scsi-named : (s : Str) → is_empty (lit "scsi" ++ s) ≡ false
unfolding is_empty lit
scsi-named s = refl

disk-accepted_iff :
    (sc : Option StorageClasses) (i : ℕ) (d : Disk)
    → (((is_empty (disk_spec sc i d).interface || is_empty (disk_spec sc i d).storage)
          || is_empty (disk_spec sc i d).size)
        ≡ false)
      ↔ Placed sc d
unfolding disk_spec
disk-accepted_iff sc i d =
    let named = default-named d.interface (lit "scsi" ++ itoa i) (scsi-named (itoa i)) in
    let split =
      or_false_iff (is_empty (disk_spec sc i d).interface) (is_empty (resolve_storage sc d).0)
        (is_empty d.size) in
    (
      λ h. (
        (non_empty_iff (resolve_storage sc d).0).0 (split.0 h).1,
        (non_empty_iff d.size).0 (split.0 h).2,
      ),
      λ p.
          split.1
            (named, (non_empty_iff (resolve_storage sc d).0).1 p.0, (non_empty_iff d.size).1 p.1),
    )

check_disks_iff :
    (sc : Option StorageClasses) (i : ℕ) (ds : List Disk)
    → (check_disks (disk_specs sc i ds) ≡ ok tt) ↔ All (Placed sc) ds
unfolding check_disks disk_specs
check_disks_iff sc i [] = (λ _. tt, λ _. refl)
check_disks_iff sc i (d ∷ ds) =
    let this =
      refuse-then_iff
        ((is_empty (disk_spec sc i d).interface || is_empty (disk_spec sc i d).storage)
          || is_empty (disk_spec sc i d).size)
        (errorf "disk %+v: Interface, Storage, Size required" (
          (disk_spec sc i d).interface ∷ (disk_spec sc i d).storage ∷ (disk_spec sc i d).size ∷ []))
        (check_disks (disk_specs sc (i + 1) ds)) in
    (
      λ h. (
        (disk-accepted_iff sc i d).0 (this.0 h).0,
        (check_disks_iff sc (i + 1) ds).0 (this.0 h).1,
      ),
      λ p. this.1 ((disk-accepted_iff sc i d).1 p.0, (check_disks_iff sc (i + 1) ds).1 p.1),
    )

bridge-named : (i : ℕ) (n : Nic) → is_empty (nic_spec i n).bridge ≡ false
unfolding nic_spec is_empty lit first_non_empty
bridge-named i n = default-named n.bridge (lit "vmbr0") refl

check_bridges-nic_specs : (i : ℕ) (ns : List Nic) → check_bridges (nic_specs i ns) ≡ ok tt
unfolding check_bridges nic_specs
check_bridges-nic_specs i [] = refl
check_bridges-nic_specs i (n ∷ ns) =
    (refuse-then_iff (is_empty (nic_spec i n).bridge)
        (errorf "nic net%d: Bridge required" (itoa (nic_spec i n).index ∷ []))
        (check_bridges (nic_specs (i + 1) ns))).1
      (bridge-named i n, check_bridges-nic_specs (i + 1) ns)

never-lacks_efi : (name : Str) (t : Target) → lacks_efi (build_create_opts name t) ≡ false
unfolding lacks_efi build_create_opts efi_spec
never-lacks_efi name t =
    elim (Bool-cases (equal_fold (resources_of t.node.resources).bios (lit "ovmf"))) [
      | inl h ↦ rw h
      | inr h ↦ rw h
    ]

refusals_iff :
    (a b c d : Bool) (e f g h : Error) (r : Result (Unit {0}))
    → (refuse_if a e >> (refuse_if b f >> (refuse_if c g >> (refuse_if d h >> r))) ≡ ok tt)
      ↔ ((a ≡ false) × (b ≡ false) × (c ≡ false) × (d ≡ false) × (r ≡ ok tt))
refusals_iff true b c d e f g h r = (λ p. cc, λ p. cc)
refusals_iff false true c d e f g h r = (λ p. cc, λ p. cc)
refusals_iff false false true d e f g h r = (λ p. cc, λ p. cc)
refusals_iff false false false true e f g h r = (λ p. cc, λ p. cc)
refusals_iff false false false false e f g h r = (λ p. (refl, refl, refl, refl, p), λ p. p.4)

then_iff : (m r : Result (Unit {0})) → (m >> r ≡ ok tt) ↔ ((m ≡ ok tt) × (r ≡ ok tt))
then_iff (ok u) r = (λ h. (refl, h), λ h. h.1)
then_iff (err e) r = (λ h. cc, λ h. cc)

leb-zero_iff : (n : ℕ) → (leb n 0 ≡ false) ↔ (0 < n)
leb-zero_iff n = ground arith

-- CreateOpts.Validate accepts the options of a node exactly if the Proxmox node is named, the id is
-- positive, the node has a name, and every disk resolves to a storage and has a size: the tests
-- on interfaces, on bridges and on the EFI disk never refuse what buildCreateOpts fills in.
pub check_opts-build_iff :
    (name : Str) (t : Target)
    → (check_opts (build_create_opts name t) ≡ ok tt) ↔ (
        (t.node.proxmox.node_name ≢ [])
        × (0 < t.node.proxmox.vmid)
        × (name ≢ [])
        × All (Placed (resolved t.env.spec.storage_classes)) t.node.disks)
unfolding check_opts build_create_opts
check_opts-build_iff name t =
    let o = build_create_opts name t in
    let rest = check_disks o.disks >> check_bridges o.nics in
    let tests =
      refusals_iff (is_empty t.node.proxmox.node_name) (leb t.node.proxmox.vmid 0) (is_empty name)
        (lacks_efi o) (errorf "CreateOpts.Node required" [])
        (errorf "CreateOpts.VMID must be > 0" []) (errorf "CreateOpts.Name required" [])
        (errorf "CreateOpts.EFIDisk required when BIOS=ovmf" []) rest in
    let sc = resolved t.env.spec.storage_classes in
    let devices = then_iff (check_disks o.disks) (check_bridges o.nics) in
    (
      λ h.
          let (a, b, c, d, r) = tests.0 h in
          (
            (non_empty_iff t.node.proxmox.node_name).0 a,
            (leb-zero_iff t.node.proxmox.vmid).0 b,
            (non_empty_iff name).0 c,
            (check_disks_iff sc 0 t.node.disks).0 (devices.0 r).0,
          ),
      λ (a, b, c, d). tests.1 (
        (non_empty_iff t.node.proxmox.node_name).1 a,
        (leb-zero_iff t.node.proxmox.vmid).1 b,
        (non_empty_iff name).1 c,
        never-lacks_efi name t,
        devices.1 ((check_disks_iff sc 0 t.node.disks).1 d, check_bridges-nic_specs 0 t.node.nics),
      ),
    )

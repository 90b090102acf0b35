-- ===== src/Proxmox/Specs.antt =====
-- pkg/proxmox/vm.go: the parameters of CreateVM, their checks, and the form that carries them.
use proxclt.Base.{
  refuse_if, ℕ, ◌==◌, ltb, leb, ◌-◌, ◌*◌, ◌/◌, ◌%◌, Str, lit, itoa, atoi, join, str_eq, is_empty,
  equal_fold, trim_space, map, Bool, true, false, not, ◌&&◌, ◌||◌, if◌then◌else◌, Option, none,
  some, List, [], ◌∷◌, ◌++◌, errorf, Result, ok, ◌>>◌,
}
use mathlib.Core.List.{reverse}
use proxclt.Config.Model.{Dict}

pub record DiskSpec : Type 0 where
  pub interface : Str
  pub storage : Str
  pub size : Str
  pub shared : Bool
  pub format : Str

pub record NicSpec : Type 0 where
  pub index : ℕ
  pub bridge : Str
  pub model : Str
  pub mac : Str
  pub firewall : Bool
  pub vlan : ℕ

pub record EfiDiskSpec : Type 0 where
  pub storage : Str
  pub format : Str
  pub pre_enrolled_keys : Bool

pub record CreateOpts : Type 0 where
  pub node : Str
  pub vmid : ℕ
  pub name : Str
  pub memory : ℕ
  pub cores : ℕ
  pub sockets : ℕ
  pub cpu : Str
  pub bios : Str
  pub machine : Str
  pub scsi_hw : Str
  pub os_type : Str
  pub tags : List Str
  pub start_at_boot : Bool
  pub protection : Bool
  pub efi_disk : Option EfiDiskSpec
  pub disks : List DiskSpec
  pub nics : List NicSpec
  pub iso_file : Str

unfoldable pub lacks_efi : CreateOpts → Bool
lacks_efi o = equal_fold o.bios (lit "ovmf") && elim o.efi_disk [ none ↦ true | some e ↦ false ]

unfoldable pub check_disks : List DiskSpec → Result (Unit {0})
check_disks [] = ok tt
check_disks (d ∷ rest) =
    refuse_if (is_empty d.interface || is_empty d.storage || is_empty d.size)
      (errorf "disk %+v: Interface, Storage, Size required" (d.interface ∷ d.storage ∷ d.size ∷ []))
    >> check_disks rest

unfoldable pub check_bridges : List NicSpec → Result (Unit {0})
check_bridges [] = ok tt
check_bridges (n ∷ rest) =
    refuse_if (is_empty n.bridge) (errorf "nic net%d: Bridge required" (itoa n.index ∷ []))
    >> check_bridges rest

-- CreateOpts.Validate
unfoldable pub check_opts : CreateOpts → Result (Unit {0})
unfolding lacks_efi check_disks check_bridges
check_opts o = do
  refuse_if (is_empty o.node) (errorf "CreateOpts.Node required" [])
  refuse_if (leb o.vmid 0) (errorf "CreateOpts.VMID must be > 0" [])
  refuse_if (is_empty o.name) (errorf "CreateOpts.Name required" [])
  refuse_if (lacks_efi o) (errorf "CreateOpts.EFIDisk required when BIOS=ovmf" [])
  check_disks o.disks
  check_bridges o.nics

unfoldable pub upper_byte : ℕ → ℕ
upper_byte c = if leb 97 c && leb c 122 then c - 32 else c

unfoldable pub is_digit_byte : ℕ → Bool
is_digit_byte c = leb 48 c && leb c 57

-- The size read from its end: the bytes after the last digit, and the rest, reversed.
unfoldable pub suffix_from : Str → Str → Str × Str
suffix_from suffix [] = ([], suffix)
suffix_from suffix (c ∷ s) = elim (is_digit_byte c) [
  | true ↦ (reverse (c ∷ s), suffix)
  | false ↦ suffix_from (c ∷ suffix) s
]

unfoldable pub is_unit : Str → Str → Bool
unfolding str_eq
is_unit letter suffix =
    str_eq suffix letter || str_eq suffix (letter ++ lit "B") || str_eq suffix (letter ++ lit "IB")

unfoldable pub scaled : Str → Option ℕ → Str → Str
scaled s none suffix = s
scaled s (some n) suffix =
    if is_unit (lit "T") suffix
    then itoa (n * 1024)
    else if is_unit (lit "M") suffix && ((n % 1024) == 0)
    then itoa (n / 1024)
    else s

unfoldable pub with_unit : Str → Str × Str → Str
unfolding upper_byte is_unit scaled
with_unit s (num, suffix) =
    let unit = map upper_byte (trim_space suffix) in
    if is_empty num || is_empty suffix
    then s
    else if is_unit (lit "G") unit
    then num
    else scaled s (atoi num) unit

unfoldable pub normalize_size : Str → Str
unfolding suffix_from is_digit_byte with_unit
normalize_size s = with_unit s (suffix_from [] (reverse s))

abbrev pub option_of : Bool → Str → List Str
option_of b s = if b then s ∷ [] else []

unfoldable pub disk_string : DiskSpec → Str
unfolding normalize_size
disk_string d = join (lit ",") (
    (d.storage ++ lit ":" ++ normalize_size d.size)
      ∷ option_of (not (is_empty d.format)) (lit "format=" ++ d.format)
    ++ option_of d.shared (lit "shared=1"))

unfoldable pub nic_head : NicSpec → Str
nic_head n =
    let model = if is_empty n.model then lit "virtio" else n.model in
    if not (is_empty n.mac) && not (equal_fold n.mac (lit "auto"))
    then model ++ lit "=" ++ n.mac
    else model

unfoldable pub nic_string : NicSpec → Str
unfolding nic_head
nic_string n = join (lit ",") (
    nic_head n ∷ (lit "bridge=" ++ n.bridge) ∷ option_of n.firewall (lit "firewall=1")
    ++ option_of (ltb 0 n.vlan) (lit "tag=" ++ itoa n.vlan))

unfoldable pub efi_disk_string : EfiDiskSpec → Str
efi_disk_string e = join (lit ",") (
    (e.storage ++ lit ":1") ∷ option_of (not (is_empty e.format)) (lit "format=" ++ e.format)
    ++ lit "efitype=4m"
      ∷ (lit "pre-enrolled-keys=" ++ (if e.pre_enrolled_keys then lit "1" else lit "0"))
      ∷ [])

-- url.Values.Set
unfoldable pub set : Str → Str → Dict Str → Dict Str
set k v [] = (k, v) ∷ []
set k v ((j, u) ∷ rest) =
    let later = set k v rest in if str_eq j k then (k, v) ∷ rest else (j, u) ∷ later

abbrev pub set_if : Bool → Str → Str → Dict Str → Dict Str
set_if b k v f = if b then set k v f else f

unfoldable pub set_disks : List DiskSpec → Dict Str → Dict Str
set_disks [] f = f
set_disks (d ∷ rest) f = set_disks rest (set d.interface (disk_string d) f)

unfoldable pub set_nics : List NicSpec → Dict Str → Dict Str
set_nics [] f = f
set_nics (n ∷ rest) f = set_nics rest (set (lit "net" ++ itoa n.index) (nic_string n) f)

unfoldable pub set_efi : Option EfiDiskSpec → Dict Str → Dict Str
set_efi none f = f
set_efi (some e) f = set (lit "efidisk0") (efi_disk_string e) f

-- The form of CreateVM: the scalars, the flags, then the devices.
unfoldable pub set_hardware : CreateOpts → Dict Str → Dict Str
unfolding set
set_hardware o f =
    let f1 = set (lit "name") o.name (set (lit "vmid") (itoa o.vmid) f) in
    let f2 = set_if (ltb 0 o.memory) (lit "memory") (itoa o.memory) f1 in
    let f3 = set_if (ltb 0 o.cores) (lit "cores") (itoa o.cores) f2 in
    let f4 = set_if (ltb 0 o.sockets) (lit "sockets") (itoa o.sockets) f3 in
    let f5 = set (lit "cpu") (if is_empty o.cpu then lit "host" else o.cpu) f4 in
    let f6 = set_if (not (is_empty o.bios)) (lit "bios") o.bios f5 in
    let f7 = set_if (not (is_empty o.machine)) (lit "machine") o.machine f6 in
    let f8 = set_if (not (is_empty o.scsi_hw)) (lit "scsihw") o.scsi_hw f7 in
    set_if (not (is_empty o.os_type)) (lit "ostype") o.os_type f8

unfoldable pub some_tags : List Str → Bool
some_tags [] = false
some_tags (t ∷ ts) = true

unfoldable pub create_form : CreateOpts → Dict Str
unfolding set_hardware some_tags set_efi set_disks set_nics
create_form o =
    let f1 = set_if (some_tags o.tags) (lit "tags") (join (lit ",") o.tags) (set_hardware o []) in
    let f2 = set (lit "agent") (lit "1") f1 in
    let f3 = set_if o.start_at_boot (lit "onboot") (lit "1") f2 in
    let f4 = set_if o.protection (lit "protection") (lit "1") f3 in
    let f5 = set_nics o.nics (set_disks o.disks (set_efi o.efi_disk f4)) in
    set_if (not (is_empty o.iso_file)) (lit "ide2") (o.iso_file ++ lit ",media=cdrom") f5

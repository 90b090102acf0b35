-- ===== src/Proxmox/Accepted/FirstBoot.antt =====
-- ConfigureFirstBoot of pkg/proxmox/boot.go, with an API that accepts its requests.
use proxclt.Base.{
  ℕ, Str, lit, is_empty, ◌||◌, if◌then◌else◌, Bool, true, false, List, [], ◌∷◌, ◌++◌, ok, ◌≡◌, refl,
}
use proxclt.World.{Event, Host}
use proxclt.Proxmox.Boot.{configure_first_boot}
use proxclt.Proxmox.Accepted.{
  Accepts, configured, started, attached-Accepts, install_boot-Accepts, start_vm-Accepts,
}

both-given :
    (s t : Str) → is_empty s ≡ false → is_empty t ≡ false → (is_empty s || is_empty t) ≡ false
both-given s t p q = rw (p, q) refl

-- Where the API accepts what changes something and its tasks end well in time, ConfigureFirstBoot sends
-- exactly these requests, in this order, each followed by the polls of its task:
-- the install ISO on ide2, the kickstart ISO on ide3, the boot order, and, where it is asked to,
-- the start.
pub configure_first_boot-Accepts :
    (node : Str) (vmid : ℕ) (install kickstart : Str) (on : Bool) (host : Host) (hist : List Event)
    (acc : Accepts host)
    → is_empty install ≡ false
    → is_empty kickstart ≡ false
    → configure_first_boot node vmid install kickstart on host hist ≡ (
      ok tt,
      (if on then started acc node vmid else (λ h. h)) (
          configured acc node vmid ((lit "boot", lit "order=scsi0;ide3;ide2") ∷ []) (
            configured acc node vmid
              ((lit "ide3", kickstart ++ lit ",media=cdrom") ∷ [])
              (configured acc node vmid ((lit "ide2", install ++ lit ",media=cdrom") ∷ []) hist))),
    )
unfolding configure_first_boot
configure_first_boot-Accepts node vmid install kickstart true host hist acc i k =
    rw (both-given install kickstart i k) (
      rw
        (
          (attached-Accepts node vmid install host hist acc i).0,
          (attached-Accepts node vmid kickstart host _ acc k).1,
          install_boot-Accepts node vmid host _ acc,
          start_vm-Accepts node vmid host _ acc,
        )
        refl)
configure_first_boot-Accepts node vmid install kickstart false host hist acc i k =
    rw (both-given install kickstart i k) (
      rw
        (
          (attached-Accepts node vmid install host hist acc i).0,
          (attached-Accepts node vmid kickstart host _ acc k).1,
          install_boot-Accepts node vmid host _ acc,
        )
        refl)

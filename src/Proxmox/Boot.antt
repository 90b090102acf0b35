-- ===== src/Proxmox/Boot.antt =====
-- pkg/proxmox/boot.go: the CD drives, the boot order and the first boot of a virtual machine.
use proxclt.Base.{
  refuse_if, ℕ, Str, lit, is_empty, has_prefix, trim_space, Bool, ◌||◌, if◌then◌else◌, [], ◌∷◌,
  ◌++◌, errorf, vm_not_found, ok,
}
use proxclt.Config.Model.{Dict}
use proxclt.World.{post, form, Action, return, ◌>>◌, within}
use proxclt.Proxmox.Client.{vm_path, submit_existing}
use proxclt.Proxmox.Vm.{start_vm}

unfoldable pub config_update : Str → ℕ → Dict Str → Action (Unit {0})
unfolding vm_path submit_existing
config_update node vmid f =
    submit_existing vm_not_found post node (vm_path node vmid ++ lit "/config") (form f)

unfoldable pub attach_iso : Str → ℕ → Str → Str → Action (Unit {0})
unfolding config_update
attach_iso node vmid ide_port iso = do
  return (refuse_if (is_empty ide_port) (errorf "proxmox: idePort required (e.g. ide2)" []))
  return (refuse_if (is_empty iso) (errorf "proxmox: iso spec required" []))
  config_update node vmid ((ide_port, iso ++ lit ",media=cdrom") ∷ [])

unfoldable pub eject_iso : Str → ℕ → Str → Action (Unit {0})
unfolding config_update
eject_iso node vmid ide_port = do
  return (refuse_if (is_empty ide_port) (errorf "proxmox: idePort required" []))
  config_update node vmid ((lit "delete", ide_port) ∷ [])

unfoldable pub boot_value : Str → Str
boot_value boot = if has_prefix boot (lit "order=") then boot else lit "order=" ++ boot

unfoldable pub set_boot_order : Str → ℕ → Str → Action (Unit {0})
unfolding boot_value config_update
set_boot_order node vmid boot = do
  return (refuse_if (is_empty (trim_space boot)) (errorf "proxmox: boot order required" []))
  config_update node vmid ((lit "boot", boot_value (trim_space boot)) ∷ [])

unfoldable pub configure_first_boot : Str → ℕ → Str → Str → Bool → Action (Unit {0})
unfolding attach_iso set_boot_order start_vm
configure_first_boot node vmid install_iso kickstart_iso power_on = do
  return (
      refuse_if (is_empty install_iso || is_empty kickstart_iso)
        (errorf "proxmox: installISO and kickstartISO required" []))
  within "attach install iso: %w" [] (attach_iso node vmid (lit "ide2") install_iso)
  within "attach kickstart iso: %w" [] (attach_iso node vmid (lit "ide3") kickstart_iso)
  within "set boot order: %w" [] (set_boot_order node vmid (lit "scsi0;ide3;ide2"))
  if power_on then within "start vm: %w" [] (start_vm node vmid) else return (ok tt)

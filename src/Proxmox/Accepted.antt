-- ===== src/Proxmox/Accepted.antt =====
-- The requests that the calls of pkg/proxmox send to an API that accepts them.
pub mod FirstBoot
use proxclt.Base.{
  ℕ, Str, lit, concat, is_empty, trim_space, has_prefix, ◌||◌, if◌then◌else◌, Error, Bool, true,
  false, List, [], ◌∷◌, ◌++◌, Result, ok, ◌≡◌, ◌≤◌, refl, ap, ◌∙◌,
}
use proxclt.Config.Model.{Dict, Value}
use proxclt.World.{
  Method, get, post, put, delete, Body, no_body, form, multipart, Event, request, Host,
}
use proxclt.Proxmox.Client.{
  vm_path, answer, call, as_upid, TaskStatus, task_path, finished, exit_of, poll, wait_for_task,
  settle, submit, submit_existing,
}
use proxclt.Proxmox.Client.Wait.{polled, StillRunning, wait_from-finishes}
use proxclt.Proxmox.Specs.{CreateOpts, check_opts, create_form}
use proxclt.Proxmox.Vm.{create_vm, start_vm, vm_status, nodes_path}
use proxclt.Proxmox.Storage.{upload_iso}
use proxclt.Proxmox.Boot.{
  config_update, attach_iso, eject_iso, set_boot_order, boot_value, configure_first_boot,
}
use mathlib.Core.Option.{none}
use mathlib.Core.Path.{subst}

abbrev pub is_get : Method → Bool
is_get get = true
is_get post = false
is_get put = false
is_get delete = false

abbrev pub requested : Method → Str → Body → Event
requested method path body = request (record { method = method; path = path; body = body })

-- Every request that changes something is answered with success, and with the id of a task, or with
-- none: `task`. A task that is waited for is found finished, and successful, after `polls` polls
-- that find it running, before the context ends.
pub record Accepts (host : Host) : Type 0 where
  pub task : Method → Str → Body → Str
  pub polls : Str → Str → List Event → ℕ
  pub accepted :
      (m : Method) (path : Str) (b : Body) (hist : List Event)
      → is_get m ≡ false
      → (v : Value) × (answer host (host.reply (requested m path b ∷ hist)) ≡ ok v)
        × (as_upid v ≡ ok (task m path b))
  pub in_time : (node upid : Str) (hist : List Event) → polls node upid hist ≤ host.patience
  pub running :
      (node upid : Str) (hist : List Event)
      → StillRunning (polls node upid hist) host node upid hist
  pub over :
      (node upid : Str) (hist : List Event)
      → (st : TaskStatus) × (poll node upid host (polled (polls node upid hist) node upid hist) ≡ (
        ok st,
        requested get (task_path node upid) no_body ∷ polled (polls node upid hist) node upid hist,
      ))
        × (finished st ≡ true)
        × (exit_of upid st ≡ ok tt)

-- The history after a task was waited for, where there is one.
unfoldable pub settled : {host : Host} → Accepts host → Str → Str → List Event → List Event
settled acc node [] hist = hist
settled acc node (c ∷ s) hist =
    requested get (task_path node (c ∷ s)) no_body
    ∷ polled (acc.polls node (c ∷ s) hist) node (c ∷ s) hist

-- The history after a request and the wait for its task.
abbrev pub sent : {host : Host} → Accepts host → Str → Method → Str → Body → List Event → List Event
sent acc node m path b hist = settled acc node (acc.task m path b) (requested m path b ∷ hist)

abbrev pub configured : {host : Host} → Accepts host → Str → ℕ → Dict Str → List Event → List Event
configured acc node vmid f = sent acc node post (vm_path node vmid ++ lit "/config") (form f)

settle-Accepts :
    (node upid : Str) (host : Host) (hist : List Event) (acc : Accepts host)
    → settle node upid host hist ≡ (ok tt, settled acc node upid hist)
unfolding settle wait_for_task settled is_empty
settle-Accepts node [] host hist acc = refl
settle-Accepts node (c ∷ s) host hist acc =
    let (st, found, over, fine) = acc.over node (c ∷ s) hist in
    wait_from-finishes (acc.polls node (c ∷ s) hist) host.patience node (c ∷ s) host hist _ st
      (acc.in_time node (c ∷ s) hist) (acc.running node (c ∷ s) hist) found over
    ∙ ap (λ r. (r, settled acc node (c ∷ s) hist)) fine

pub submit-Accepts :
    (m : Method) (node path : Str) (b : Body) (host : Host) (hist : List Event) (acc : Accepts host)
    → is_get m ≡ false
    → submit m node path b host hist ≡ (ok tt, sent acc node m path b hist)
unfolding submit call
submit-Accepts m node path b host hist acc g =
    let (v, good, upid) = acc.accepted m path b hist g in
    rw (good, upid) (settle-Accepts node (acc.task m path b) host (requested m path b ∷ hist) acc)

pub submit_existing-Accepts :
    (e : Error) (m : Method) (node path : Str) (b : Body) (host : Host) (hist : List Event)
    (acc : Accepts host)
    → is_get m ≡ false
    → submit_existing e m node path b host hist ≡ (ok tt, sent acc node m path b hist)
unfolding submit_existing call
submit_existing-Accepts e m node path b host hist acc g =
    let (v, good, upid) = acc.accepted m path b hist g in
    rw (good, upid) (settle-Accepts node (acc.task m path b) host (requested m path b ∷ hist) acc)

pub config_update-Accepts :
    (node : Str) (vmid : ℕ) (f : Dict Str) (host : Host) (hist : List Event) (acc : Accepts host)
    → config_update node vmid f host hist ≡ (ok tt, configured acc node vmid f hist)
unfolding config_update
config_update-Accepts node vmid f host hist acc =
    submit_existing-Accepts _ _ _ _ _ host hist acc refl

pub attach_iso-Accepts :
    (node : Str) (vmid : ℕ) (port iso : Str) (host : Host) (hist : List Event) (acc : Accepts host)
    → is_empty port ≡ false
    → is_empty iso ≡ false
    → attach_iso node vmid port iso host hist
      ≡ (ok tt, configured acc node vmid ((port, iso ++ lit ",media=cdrom") ∷ []) hist)
unfolding attach_iso
attach_iso-Accepts node vmid port iso host hist acc p i =
    rw (p, i)
      (config_update-Accepts node vmid ((port, iso ++ lit ",media=cdrom") ∷ []) host hist acc)

pub eject_iso-Accepts :
    (node : Str) (vmid : ℕ) (port : Str) (host : Host) (hist : List Event) (acc : Accepts host)
    → is_empty port ≡ false
    → eject_iso node vmid port host hist
      ≡ (ok tt, configured acc node vmid ((lit "delete", port) ∷ []) hist)
unfolding eject_iso
eject_iso-Accepts node vmid port host hist acc p =
    rw p (config_update-Accepts node vmid ((lit "delete", port) ∷ []) host hist acc)

pub set_boot_order-Accepts :
    (node : Str) (vmid : ℕ) (boot : Str) (host : Host) (hist : List Event) (acc : Accepts host)
    → is_empty (trim_space boot) ≡ false
    → set_boot_order node vmid boot host hist
      ≡ (ok tt, configured acc node vmid ((lit "boot", boot_value (trim_space boot)) ∷ []) hist)
unfolding set_boot_order
set_boot_order-Accepts node vmid boot host hist acc p = rw p (
    config_update-Accepts node vmid ((lit "boot", boot_value (trim_space boot)) ∷ []) host hist acc)

abbrev pub started : {host : Host} → Accepts host → Str → ℕ → List Event → List Event
started acc node vmid =
    sent acc node post (concat (vm_path node vmid ∷ lit "/status/" ∷ lit "start" ∷ [])) (form [])

pub start_vm-Accepts :
    (node : Str) (vmid : ℕ) (host : Host) (hist : List Event) (acc : Accepts host)
    → start_vm node vmid host hist ≡ (ok tt, started acc node vmid hist)
unfolding start_vm vm_status
start_vm-Accepts node vmid host hist acc = submit-Accepts _ _ _ _ host hist acc refl

abbrev pub created : {host : Host} → Accepts host → CreateOpts → List Event → List Event
created acc o = sent acc o.node post (nodes_path o.node (lit "/qemu")) (form (create_form o))

pub create_vm-Accepts :
    (o : CreateOpts) (host : Host) (hist : List Event) (acc : Accepts host)
    → check_opts o ≡ ok tt
    → create_vm o host hist ≡ (ok tt, created acc o hist)
unfolding create_vm
create_vm-Accepts o host hist acc c = rw c (submit-Accepts _ _ _ _ host hist acc refl)

abbrev pub uploaded : {host : Host} → Accepts host → Str → Str → Str → Str → List Event → List Event
uploaded acc node storage local remote =
    sent acc node post
      (concat (lit "/nodes/" ∷ node ∷ lit "/storage/" ∷ storage ∷ lit "/upload" ∷ []))
      (multipart local remote)

pub upload_iso-Accepts :
    (node storage local remote : Str) (host : Host) (hist : List Event) (acc : Accepts host)
    → is_empty local ≡ false
    → host.open_file local ≡ none
    → is_empty remote ≡ false
    → upload_iso node storage local remote host hist
      ≡ (ok tt, uploaded acc node storage local remote hist)
unfolding upload_iso
upload_iso-Accepts node storage local remote host hist acc l f r =
    rw (l, f, r) (submit_existing-Accepts _ _ _ _ _ host hist acc refl)

-- The boot order that the installation uses, and the one after it.
install_order : boot_value (trim_space (lit "scsi0;ide3;ide2")) ≡ lit "order=scsi0;ide3;ide2"
unfolding boot_value trim_space lit has_prefix
install_order = refl

disk_order : boot_value (trim_space (lit "scsi0")) ≡ lit "order=scsi0"
unfolding boot_value trim_space lit has_prefix
disk_order = refl

abbrev pub install_boot : {host : Host} → Accepts host → Str → ℕ → List Event → List Event
install_boot acc node vmid =
    configured acc node vmid ((lit "boot", lit "order=scsi0;ide3;ide2") ∷ [])

abbrev pub disk_boot : {host : Host} → Accepts host → Str → ℕ → List Event → List Event
disk_boot acc node vmid = configured acc node vmid ((lit "boot", lit "order=scsi0") ∷ [])

pub install_boot-Accepts :
    (node : Str) (vmid : ℕ) (host : Host) (hist : List Event) (acc : Accepts host)
    → set_boot_order node vmid (lit "scsi0;ide3;ide2") host hist
      ≡ (ok tt, install_boot acc node vmid hist)
unfolding trim_space lit is_empty
install_boot-Accepts node vmid host hist acc =
    subst
      (λ b.
        set_boot_order node vmid (lit "scsi0;ide3;ide2") host hist
        ≡ (ok tt, configured acc node vmid ((lit "boot", b) ∷ []) hist))
      install_order (set_boot_order-Accepts node vmid (lit "scsi0;ide3;ide2") host hist acc refl)

pub disk_boot-Accepts :
    (node : Str) (vmid : ℕ) (host : Host) (hist : List Event) (acc : Accepts host)
    → set_boot_order node vmid (lit "scsi0") host hist ≡ (ok tt, disk_boot acc node vmid hist)
unfolding trim_space lit is_empty
disk_boot-Accepts node vmid host hist acc =
    subst
      (λ b.
        set_boot_order node vmid (lit "scsi0") host hist
        ≡ (ok tt, configured acc node vmid ((lit "boot", b) ∷ []) hist))
      disk_order (set_boot_order-Accepts node vmid (lit "scsi0") host hist acc refl)

pub attached-Accepts :
    (node : Str) (vmid : ℕ) (iso : Str) (host : Host) (hist : List Event) (acc : Accepts host)
    → is_empty iso ≡ false
    → (attach_iso node vmid (lit "ide2") iso host hist
        ≡ (ok tt, configured acc node vmid ((lit "ide2", iso ++ lit ",media=cdrom") ∷ []) hist))
      × (attach_iso node vmid (lit "ide3") iso host hist
          ≡ (ok tt, configured acc node vmid ((lit "ide3", iso ++ lit ",media=cdrom") ∷ []) hist))
unfolding lit is_empty
attached-Accepts node vmid iso host hist acc i = (
  attach_iso-Accepts node vmid (lit "ide2") iso host hist acc refl i,
  attach_iso-Accepts node vmid (lit "ide3") iso host hist acc refl i,
)

pub ejected-Accepts :
    (node : Str) (vmid : ℕ) (host : Host) (hist : List Event) (acc : Accepts host)
    → (eject_iso node vmid (lit "ide2") host hist
        ≡ (ok tt, configured acc node vmid ((lit "delete", lit "ide2") ∷ []) hist))
      × (eject_iso node vmid (lit "ide3") host hist
          ≡ (ok tt, configured acc node vmid ((lit "delete", lit "ide3") ∷ []) hist))
unfolding lit is_empty
ejected-Accepts node vmid host hist acc = (
  eject_iso-Accepts node vmid (lit "ide2") host hist acc refl,
  eject_iso-Accepts node vmid (lit "ide3") host hist acc refl,
)

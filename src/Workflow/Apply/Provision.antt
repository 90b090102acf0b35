-- ===== src/Workflow/Apply/Provision.antt =====
-- The whole of Apply of pkg/workflow/single_vm.go where every step succeeds.
use proxclt.Base.{Str, lit, is_empty, false, List, [], ◌∷◌, ◌++◌, map, Result, err, ok, ◌≡◌, refl}
use proxclt.World.{Event, rendered, built, removed, Host, Action, return, proceed, ◌>>=◌}
use proxclt.Proxmox.Specs.{check_opts}
use proxclt.Proxmox.Accepted.{Accepts, configured, started, created, uploaded, install_boot}
use proxclt.Workflow.Options.{SingleVm, Target, resolve, build_create_opts}
use proxclt.Workflow.Plan.{
  Kind, render_kickstart, build_iso, upload_iso, create_vm, attach_kickstart_iso, start_vm, Change,
  kickstart_storage, kickstart_changes, build_changes, changes, upload_change, create_change,
  attach_change, start_change,
}
use proxclt.Workflow.Apply.{
  Locals, upload_name, kickstart_volid, apply_change, apply_all, apply, execute,
}
use proxclt.Workflow.Apply.Steps.{
  Equipped, Builds, render-done, build-done, upload-done, create-done, attach-done, start-done,
}

-- The loop of Apply on kinds, as it runs when it is no dry run.
unfoldable pub execute_all : SingleVm → Target → Locals → List Kind → Action Locals
execute_all w t l [] = return (ok l)
execute_all w t l (k ∷ ks) = execute w t l k >>= λ m. execute_all w t m ks

proceed-cong :
    (f g : Locals → Action Locals) (host : Host) (p : Result Locals × List Event)
    → ((m : Locals) (hist : List Event) → f m host hist ≡ g m host hist)
    → proceed f host p ≡ proceed g host p
proceed-cong f g host (ok m, hist) same = same m hist
proceed-cong f g host (err e, hist) same = refl

apply_change-wet :
    (w : SingleVm) (t : Target) (l : Locals) (ch : Change)
    → w.dry_run ≡ false
    → apply_change w t l ch ≡ execute w t l ch.kind
unfolding apply_change
apply_change-wet w t l ch wet = simp wet

apply_all-kinds :
    (w : SingleVm) (t : Target) (l : Locals) (chs : List Change) (host : Host) (hist : List Event)
    → w.dry_run ≡ false
    → apply_all w t l chs host hist ≡ execute_all w t l (map Change.kind chs) host hist
unfolding apply_all execute_all
apply_all-kinds w t l [] host hist wet = refl
apply_all-kinds w t l (ch ∷ rest) host hist wet = rw (apply_change-wet w t l ch wet) (
    proceed-cong (λ m. apply_all w t m rest) (λ m. execute_all w t m (map Change.kind rest)) host
      (execute w t l ch.kind host hist) (λ m next. apply_all-kinds w t m rest host next wet))

planned :
    (w : SingleVm) (t : Target)
    → w.skip_kickstart_build ≡ false
    → is_empty (kickstart_storage t.iso) ≡ false
    → map Change.kind (changes w t)
      ≡ render_kickstart ∷ build_iso ∷ upload_iso ∷ create_vm ∷ attach_kickstart_iso ∷ start_vm ∷ []
unfolding changes kickstart_changes build_changes upload_change create_change attach_change
    start_change
planned w t b s = rw (b, s) refl

-- Where the kickstart is rendered and its ISO built, the API accepts every request that changes
-- something, with a task or with none, each task that is waited for ends well before the context
-- does, the options of the VM pass their validation and a kickstart storage is configured, Apply on
-- its own plan succeeds and does exactly this, in this order: render, build, upload, create, attach
-- the kickstart ISO to ide3, set the boot order, start, remove the local ISO. The task of each
-- request, where it has one, is polled until it is over before the next.
pub apply-Provisions :
    (w : SingleVm) (t : Target) (host : Host) (hist : List Event) (ks path : Str)
    → resolve w ≡ ok t
    → Equipped w
    → Builds w t host ks path
    → (acc : Accepts host) → is_empty (kickstart_storage t.iso) ≡ false
    → check_opts (build_create_opts w.node_name t) ≡ ok tt
    → apply w (changes w t) host hist ≡ (
      ok tt,
      removed path
          ∷ started acc t.node.proxmox.node_name t.node.proxmox.vmid (
              install_boot acc t.node.proxmox.node_name t.node.proxmox.vmid (
                configured acc t.node.proxmox.node_name t.node.proxmox.vmid
                  ((
                    lit "ide3",
                    kickstart_volid (kickstart_storage t.iso) w.node_name ++ lit ",media=cdrom",
                  )
                    ∷ [])
                  (created acc (build_create_opts w.node_name t) (
                    uploaded acc t.node.proxmox.node_name
                      (kickstart_storage t.iso)
                      path
                      (upload_name w.node_name)
                      (built ks w.node_name ∷ rendered w.node_name ∷ hist))))),
    )
unfolding apply execute_all execute
apply-Provisions w t host hist ks path found e b acc s c =
    let l0 : Locals = record { rendered_ks = []; iso_path = [] } in
    let l1 : Locals = record { rendered_ks = ks; iso_path = [] } in
    let l2 : Locals = record { rendered_ks = ks; iso_path = path } in
    rw found (
      rw (apply_all-kinds w t l0 (changes w t) host hist e.wet, planned w t e.building s)
        (rw
          (
            render-done w t host hist e acc ks path l0 b,
            build-done w t host _ e acc ks path [] b,
            upload-done w t host _ e acc ks path l2 b refl s,
            create-done w t host _ e acc c,
            attach-done w t host _ e acc s,
            start-done w t host _ e acc,
          )
          (rw b.named refl)))

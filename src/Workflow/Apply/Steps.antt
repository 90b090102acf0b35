-- ===== src/Workflow/Apply/Steps.antt =====
-- What Apply of pkg/workflow/single_vm.go does where every step succeeds.
use proxclt.Base.{Str, lit, concat, is_empty, true, false, none, List, [], ◌∷◌, ◌++◌, ok, ◌≡◌, refl}
use proxclt.World.{Event, rendered, built, Host}
use proxclt.Proxmox.Specs.{check_opts}
use proxclt.Proxmox.Accepted.{
  Accepts, configured, started, created, uploaded, install_boot, attached-Accepts,
  install_boot-Accepts, start_vm-Accepts, create_vm-Accepts, upload_iso-Accepts,
}
use proxclt.Workflow.Options.{SingleVm, Target, build_create_opts}
use proxclt.Workflow.Plan.{kickstart_storage}
use proxclt.Workflow.Apply.{
  Locals, upload_name, kickstart_volid, apply_render, apply_build, apply_upload, apply_create,
  apply_attach, apply_start,
}

-- A workflow with all its collaborators, which builds the kickstart ISO and is no dry run.
pub record Equipped (w : SingleVm) : Type 0 where
  pub client : w.has_client ≡ true
  pub renderer : w.has_renderer ≡ true
  pub builder : w.has_builder ≡ true
  pub wet : w.dry_run ≡ false
  pub building : w.skip_kickstart_build ≡ false

-- The renderer and the builder succeed for the node, and the ISO can be read.
pub record Builds (w : SingleVm) (t : Target) (host : Host) (ks path : Str) : Type 0 where
  pub render : host.render t.env w.node_name ≡ ok ks
  pub build : host.build ks w.node_name ≡ ok path
  pub named : is_empty path ≡ false
  pub readable : host.open_file path ≡ none

upload_name-named : (n : Str) → is_empty (upload_name n) ≡ false
unfolding upload_name concat lit is_empty
upload_name-named n = refl

volid-named : (s n : Str) → is_empty (kickstart_volid s n) ≡ false
unfolding kickstart_volid concat is_empty lit
volid-named [] n = refl
volid-named (a ∷ s) n = refl

module _ (w : SingleVm) (t : Target) (host : Host) (hist : List Event) (e : Equipped w)
    (acc : Accepts host) where
  pub render-done :
      (ks path : Str) (l : Locals)
      → Builds w t host ks path
      → apply_render w t l host hist
        ≡ (ok (record l { rendered_ks = ks }), rendered w.node_name ∷ hist)
  unfolding apply_render
  render-done ks path l b = rw (e.renderer, b.render) refl

  pub build-done :
      (ks path q : Str)
      → Builds w t host ks path
      → apply_build w (record { rendered_ks = ks; iso_path = q }) host hist
        ≡ (ok (record { rendered_ks = ks; iso_path = path }), built ks w.node_name ∷ hist)
  unfolding apply_build
  build-done ks path q b = rw (e.builder, b.build) refl

  pub upload-done :
      (ks path : Str) (l : Locals)
      → Builds w t host ks path
      → l.iso_path ≡ path
      → is_empty (kickstart_storage t.iso) ≡ false
      → apply_upload w t l host hist ≡ (
        ok tt,
        uploaded acc t.node.proxmox.node_name
            (kickstart_storage t.iso)
            path
            (upload_name w.node_name)
            hist,
      )
  unfolding apply_upload
  upload-done ks path l b p s =
      rw (e.client, s, p, b.named)
        (rw
          (upload_iso-Accepts t.node.proxmox.node_name (kickstart_storage t.iso) path
            (upload_name w.node_name) host hist acc b.named b.readable
            (upload_name-named w.node_name))
          refl)

  pub create-done :
      check_opts (build_create_opts w.node_name t) ≡ ok tt
      → apply_create w t host hist ≡ (ok tt, created acc (build_create_opts w.node_name t) hist)
  unfolding apply_create
  create-done c =
      rw (e.client, create_vm-Accepts (build_create_opts w.node_name t) host hist acc c) refl

  pub attach-done :
      is_empty (kickstart_storage t.iso) ≡ false
      → apply_attach w t host hist ≡ (
        ok tt,
        install_boot acc t.node.proxmox.node_name t.node.proxmox.vmid (
            configured acc t.node.proxmox.node_name t.node.proxmox.vmid
              ((
                lit "ide3",
                kickstart_volid (kickstart_storage t.iso) w.node_name ++ lit ",media=cdrom",
              )
                ∷ [])
              hist),
      )
  unfolding apply_attach
  attach-done s =
      rw (e.client, s)
        (rw
          (
            (attached-Accepts t.node.proxmox.node_name t.node.proxmox.vmid
                (kickstart_volid (kickstart_storage t.iso) w.node_name) host hist acc
                (volid-named (kickstart_storage t.iso) w.node_name)).1,
            install_boot-Accepts t.node.proxmox.node_name t.node.proxmox.vmid host _ acc,
          )
          refl)

  pub start-done :
      apply_start w t host hist
      ≡ (ok tt, started acc t.node.proxmox.node_name t.node.proxmox.vmid hist)
  unfolding apply_start
  start-done =
      rw (e.client, start_vm-Accepts t.node.proxmox.node_name t.node.proxmox.vmid host hist acc)
        refl

-- ===== src/Root/Kickstart/Stack.antt =====
-- `kickstart build-stack` of internal/root/kickstart.go.
use proxclt.Base.{
  Str, lit, str_eq, is_empty, has_prefix, Bool, true, false, if◌then◌else◌, Option, none, some,
  List, [], ◌∷◌, errorf, wrapf, Error, Result, ok, err, require, refuse_if,
}
use proxclt.Config.Model.{Node, Env, Hypervisor, IsoConfig, resolved, lookup}
use proxclt.World.{printed, record_event}
use proxclt.Proxmox.Storage.{upload_iso, base_name}
use proxclt.Workflow.Multi.{keys}
use proxclt.Kickstart.Renderer.{TemplateFiles, Renderer, new_renderer_from_fs, render}
use proxclt.Kickstart.Disk.{
  Machine, DiskState, Job, done, ask, call_api, ◌>>=◌, ◌>>◌, telling, join_path, remove,
  removing_all, read_file, write_file,
}
use proxclt.Kickstart.Extract.{extract_bootloader, read_volume_label}
use proxclt.Kickstart.Iso.{IsoBuilder, new_iso_builder, build_iso_file}
use proxclt.Root.Process.{Process, load_env_manifest, load_proxmox_client}
use proxclt.Root.Kickstart.{rename, make_dir}

pub record StackFlags : Type 0 where
  pub node : Str
  pub source_iso : Str
  pub out_dir : Str
  pub upload : Bool
  pub keep : Bool

-- copyISOFile; the sync of the copy is not modelled to fail.
unfoldable pub copy_iso_file : Str → Str → Job (Unit {0})
unfolding read_file write_file
copy_iso_file src dst = do f ← read_file src; write_file dst f.content

-- The error of the rename stays in the error of the copy that replaces it.
abbrev after_rename :
    (Error → Job (Unit {0}))
    → Machine
    → Result (Unit {0}) × DiskState
    → Result (Unit {0}) × DiskState
after_rename fallback m (ok u, d) = (ok u, d)
after_rename fallback m (err e, d) = fallback e m d

copied_instead : Str → Str → Error → Job (Unit {0})
unfolding copy_iso_file
copied_instead src dst e = do
  telling (λ e2. wrapf "relocate iso %s -> %s: %w (copy fallback: %v)" (src ∷ dst ∷ []) e)
      (copy_iso_file src dst)
  remove src

relocating : Str → Str → Job (Unit {0})
unfolding rename copied_instead
relocating src dst m d = after_rename (copied_instead src dst) m (rename src dst m d)

-- The ISO is moved into the directory unless it is there.
unfoldable pub relocate : Str → Str → Job Str
unfolding relocating join_path base_name str_eq
relocate dir path =
    let dest = join_path dir (base_name path) in
    if str_eq path dest then done (ok path) else relocating path dest >> done (ok dest)

kickstart_storage_of : Option IsoConfig → Str
kickstart_storage_of none = []
kickstart_storage_of (some iso) = iso.kickstart_storage

unfoldable pub upload_stack : StackFlags → Hypervisor → Str → Node → Str → Job (Unit {0})
unfolding upload_iso kickstart_storage_of base_name is_empty
upload_stack f hyp name n path =
    if f.upload
    then done (
        refuse_if (is_empty n.proxmox.node_name)
          (errorf "node %q has no proxmox.node_name" (name ∷ [])))
      >> telling
          (wrapf "upload %s -> %s/%s: %w"
            (path ∷ n.proxmox.node_name ∷ kickstart_storage_of hyp.iso ∷ []))
          (call_api
            (upload_iso n.proxmox.node_name (kickstart_storage_of hyp.iso) path (base_name path)))
      >> (if f.keep then done (ok tt) else remove path)
    else done (ok tt)

-- The body of the loop over the nodes.
unfoldable pub build_node :
    StackFlags → Env → Hypervisor → Renderer → IsoBuilder → Str → Str → Job (Unit {0})
unfolding lookup render build_iso_file relocate upload_stack
build_node f env hyp r b dir name = do
  n ← done (
      require (errorf "node %q vanished from hypervisor.nodes" (name ∷ [])) (lookup name hyp.nodes))
  content ← telling (wrapf "render %s: %w" (name ∷ [])) (done (render r (some env) name))
  built ← telling (wrapf "build iso %s: %w" (name ∷ [])) (build_iso_file b content name)
  path ← relocate dir built
  call_api (record_event (printed "%s" (path ∷ [])))
  upload_stack f hyp name n path

unfoldable pub build_nodes :
    StackFlags → Env → Hypervisor → Renderer → IsoBuilder → Str → List Str → Job (Unit {0})
unfolding build_node
build_nodes f env hyp r b dir [] = done (ok tt)
build_nodes f env hyp r b dir (name ∷ rest) = do
  build_node f env hyp r b dir name
  build_nodes f env hyp r b dir rest

is_missing : Option Node → Bool
is_missing none = true
is_missing (some n) = false

stack_nodes : StackFlags → Hypervisor → Job (List Str)
unfolding is_missing lookup keys is_empty
stack_nodes f hyp =
    if is_empty f.node
    then done (ok (keys hyp.nodes))
    else done (
        refuse_if (is_missing (lookup f.node hyp.nodes))
          (errorf "node %q not found in hypervisor.nodes" (f.node ∷ [])))
      >> done (ok (f.node ∷ []))

no_nodes : List Str → Bool
no_nodes [] = true
no_nodes (n ∷ rest) = false

-- The directory for the ISOs: the one of --out-dir, or a new one.
output_dir : StackFlags → Job Str
unfolding make_dir is_empty lit
output_dir f =
    if is_empty f.out_dir
    then telling (wrapf "mkdtemp out: %w" [])
        (ask (λ m files. m.mkdir_temp files [] (lit "proxctl-stack-iso-")))
    else make_dir f.out_dir >> done (ok f.out_dir)

check_upload : Process → StackFlags → Hypervisor → Job (Unit {0})
unfolding load_proxmox_client kickstart_storage_of is_empty
check_upload p f hyp =
    if f.upload
    then telling (wrapf "load proxmox client: %w" []) (done (load_proxmox_client p)) >>= (λ client.
      done (
        refuse_if (is_empty (kickstart_storage_of hyp.iso))
          (errorf "--upload requires hypervisor.iso.kickstart_storage in env manifest" [])))
    else done (ok tt)

-- What is done with the directory of the bootloader, which is removed after it.
unfoldable pub stack_in :
    TemplateFiles → Process → StackFlags → Env → Hypervisor → List Str → Str → Job (Unit {0})
unfolding extract_bootloader read_volume_label output_dir new_renderer_from_fs new_iso_builder
    check_upload build_nodes
stack_in fs p f env hyp nodes dir = do
  telling (wrapf "extract bootloader: %w" []) (extract_bootloader f.source_iso dir)
  label ← telling (wrapf "read source ISO volume label: %w" []) (read_volume_label f.source_iso)
  out ← output_dir f
  r ← done (new_renderer_from_fs fs)
  check_upload p f hyp
  λ m.
      build_nodes f env hyp r (record (new_iso_builder m dir) { source_iso_label = label }) out
        nodes m

-- kickstart build-stack
unfoldable pub kickstart_build_stack : TemplateFiles → Process → StackFlags → Str → Job (Unit {0})
unfolding load_env_manifest resolved stack_nodes no_nodes stack_in has_prefix is_empty lit
kickstart_build_stack fs p f env_file = do
  done (
      refuse_if (is_empty f.source_iso)
        (errorf "--source-iso required (path to upstream OL install ISO)" []))
  env ← done (load_env_manifest p env_file)
  hyp ← done (require (errorf "env.spec.hypervisor not resolved" []) (resolved env.spec.hypervisor))
  ks ← done (require (errorf "env has no kickstart config" []) hyp.kickstart)
  done (
      refuse_if (has_prefix ks.distro (lit "ubuntu")) (
        errorf "distro %q is Ubuntu-family — use `proxctl kickstart build-ubuntu` instead"
          (ks.distro ∷ [])))
  nodes ← stack_nodes f hyp
  done (refuse_if (no_nodes nodes) (errorf "no nodes to build" []))
  dir ←
      telling (wrapf "mkdtemp bootloader: %w" [])
        (ask (λ m files. m.mkdir_temp files [] (lit "proxctl-bootloader-")))
  removing_all dir (stack_in fs p f env hyp nodes dir)

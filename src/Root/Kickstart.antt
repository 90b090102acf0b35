-- ===== src/Root/Kickstart.antt =====
-- internal/root/kickstart.go: the commands that render kickstarts, build ISOs and upload them.
-- The embedded templates are a parameter.
pub mod Stack
pub mod Build
pub mod Generated
pub mod Cleaned
use proxclt.Base.{
  Str, lit, str_eq, is_empty, has_prefix, trim_suffix, not, ◌&&◌, ◌||◌, Bool, true, false,
  if◌then◌else◌, Option, none, some, List, [], ◌∷◌, ◌++◌, errorf, wrapf, Error, Result, ok, err,
  require, refuse_if,
}
use proxclt.Config.Model.{Dict, Node, Env, Hypervisor, resolved, lookup}
use proxclt.World.{no_error}
use proxclt.Proxmox.Storage.{upload_iso, base_name}
use proxclt.Workflow.Multi.{keys}
use proxclt.Kickstart.Renderer.{
  TemplateFiles, Renderer, new_renderer_from_fs, render, supported_distros,
}
use proxclt.Kickstart.Disk.{
  Machine, DiskState, File, Job, done, ask, call_api, ◌>>=◌, ◌>>◌, telling, join_path, put_file,
  drop_file, read_file, write_file,
}
use proxclt.Kickstart.Iso.{new_iso_builder, build_iso_file}
use proxclt.Root.Process.{Process, load_env_manifest, load_proxmox_client}

-- os.Rename of a file
moved : Str → Str → Option File → Dict File → Dict File
unfolding put_file drop_file
moved from to none files = files
moved from to (some f) files = put_file to f (drop_file from files)

abbrev renaming : Str → Str → Option Error → DiskState → Result (Unit {0}) × DiskState
renaming from to (some e) d = (err e, d)
renaming from to none d = (ok tt, record d { files = moved from to (lookup from d.files) d.files })

unfoldable pub rename : Str → Str → Job (Unit {0})
unfolding moved lookup
rename from to m d = renaming from to (m.rename_error d.files from to) d

-- The result of a build, moved to where --out says.
unfoldable pub move_out : Str → Str → Job Str
unfolding rename is_empty str_eq
move_out out path =
    if not (is_empty out) && not (str_eq out path)
    then rename path out >> done (ok out)
    else done (ok path)

unfoldable pub make_dir : Str → Job (Unit {0})
make_dir dir = ask (λ m files. no_error (m.mkdir_all files dir))

-- The nodes that a command is for: the one of --node, or all, in the order of a `range`.
unfoldable pub generate_nodes : Env → Str → Job (List Str)
unfolding resolved keys is_empty
generate_nodes env node =
    if is_empty node
    then done (require (errorf "hypervisor not resolved" []) (resolved env.spec.hypervisor))
      >>= (λ hyp. done (ok (keys hyp.nodes)))
    else done (ok (node ∷ []))

unfoldable pub write_kickstarts : Renderer → Env → Str → List Str → Job (Unit {0})
unfolding render write_file join_path lit
write_kickstarts r env dir [] = done (ok tt)
write_kickstarts r env dir (n ∷ rest) = do
  content ← telling (wrapf "render %s: %w" (n ∷ [])) (done (render r (some env) n))
  write_file (join_path dir (n ++ lit ".ks")) content
  write_kickstarts r env dir rest

-- kickstart generate
unfoldable pub kickstart_generate : TemplateFiles → Process → Str → Str → Str → Job (Unit {0})
unfolding load_env_manifest new_renderer_from_fs generate_nodes write_kickstarts make_dir is_empty
    lit
kickstart_generate fs p env_file node out_dir = do
  env ← done (load_env_manifest p env_file)
  r ← done (new_renderer_from_fs fs)
  nodes ← generate_nodes env node
  let dir = if is_empty out_dir then lit "." else out_dir
  make_dir dir
  write_kickstarts r env dir nodes

-- kickstart build-iso
unfoldable pub kickstart_build_iso : Str → Str → Str → Job Str
unfolding new_iso_builder build_iso_file base_name trim_suffix read_file move_out is_empty lit
kickstart_build_iso ks_file bootloader out = do
  ks ← read_file ks_file
  done (refuse_if (is_empty bootloader) (errorf "--bootloader-dir required" []))
  path ← (λ m.
      build_iso_file (new_iso_builder m bootloader) ks.content
        (trim_suffix (base_name ks_file) (lit ".ks")) m)
  move_out out path

-- kickstart upload
unfoldable pub kickstart_upload : Process → Str → Str → Str → Job (Unit {0})
unfolding load_proxmox_client upload_iso base_name is_empty
kickstart_upload p storage node file = do
  done (refuse_if (is_empty storage || is_empty node) (errorf "--storage and --node required" []))
  client ← done (load_proxmox_client p)
  call_api (upload_iso node storage file (base_name file))

-- kickstart distros
unfoldable pub kickstart_distros : TemplateFiles → Job (List Str)
unfolding new_renderer_from_fs supported_distros
kickstart_distros fs = do r ← done (new_renderer_from_fs fs); done (ok (supported_distros r))

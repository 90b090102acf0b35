-- ===== src/Root/Kickstart/Build.antt =====
-- `kickstart build-ubuntu` of internal/root/kickstart.go.
use proxclt.Base.{Str, lit, is_empty, some, [], errorf, wrapf, refuse_if}
use proxclt.Kickstart.Renderer.{TemplateFiles, new_renderer_from_fs, render_template}
use proxclt.Kickstart.Disk.{
  Job, done, ask, ◌>>=◌, ◌>>◌, telling, join_path, removing_all, write_file,
}
use proxclt.Kickstart.Ubuntu.{new_ubuntu_iso_builder, build_ubuntu_iso}
use proxclt.Root.Process.{Process, load_env_manifest}
use proxclt.Root.Kickstart.{move_out}

pub record UbuntuFlags : Type 0 where
  pub node : Str
  pub source_iso : Str
  pub out : Str
  pub work_dir : Str

-- What is done with the directory for user-data and meta-data, which is removed after it.
unfoldable pub ubuntu_in : UbuntuFlags → Str → Str → Str → Job Str
unfolding write_file build_ubuntu_iso new_ubuntu_iso_builder move_out join_path lit
ubuntu_in f user_data meta_data dir = do
  write_file (join_path dir (lit "user-data")) user_data
  write_file (join_path dir (lit "meta-data")) meta_data
  path ←
      build_ubuntu_iso (record (new_ubuntu_iso_builder f.source_iso dir) { work_dir = f.work_dir })
        f.node
  move_out f.out path

-- kickstart build-ubuntu
unfoldable pub kickstart_build_ubuntu : TemplateFiles → Process → UbuntuFlags → Str → Job Str
unfolding load_env_manifest new_renderer_from_fs render_template is_empty lit
kickstart_build_ubuntu fs p f env_file = do
  done (
      refuse_if (is_empty f.source_iso)
        (errorf "--source-iso required (path to upstream Ubuntu live-server ISO)" []))
  done (refuse_if (is_empty f.node) (errorf "--node required" []))
  env ← done (load_env_manifest p env_file)
  r ← done (new_renderer_from_fs fs)
  user_data ←
      telling (wrapf "render user-data: %w" [])
        (done (render_template r (some env) f.node (lit "user-data.tmpl")))
  meta_data ←
      telling (wrapf "render meta-data: %w" [])
        (done (render_template r (some env) f.node (lit "meta-data.tmpl")))
  dir ← ask (λ m files. m.mkdir_temp files [] (lit "proxctl-ubuntu-cidata-"))
  removing_all dir (ubuntu_in f user_data meta_data dir)

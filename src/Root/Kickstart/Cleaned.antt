-- ===== src/Root/Kickstart/Cleaned.antt =====
-- What `kickstart build-ubuntu` of internal/root/kickstart.go leaves of the rendered cidata files.
use proxclt.Base.{Str, lit, is_empty, Bool-cases, true, none, some, Result-cases, ok, ◌≡◌, inl, inr}
use proxclt.Config.Model.{lookup}
use proxclt.Kickstart.Renderer.{TemplateFiles, new_renderer_from_fs, render_template}
use proxclt.Kickstart.Disk.{Machine, DiskState, disk_of, is_under}
use proxclt.Kickstart.Iso.Cleaned.{cleared-none}
use proxclt.Root.Process.{Process, load_env_manifest}
use proxclt.Root.Kickstart.Build.{UbuntuFlags, ubuntu_in, kickstart_build_ubuntu}

-- The directory that os.MkdirTemp makes for user-data and meta-data, which is new, is empty in the end:
-- whether build-ubuntu is refused, fails in a step or builds the ISO, no file of it is left.
pub kickstart_build_ubuntu-cleans :
    (fs : TemplateFiles) (p : Process) (f : UbuntuFlags) (env_file dir path : Str) (m : Machine)
    (d : DiskState)
    → m.mkdir_temp d.files (lit "") (lit "proxctl-ubuntu-cidata-") ≡ ok dir
    → is_under dir path ≡ true
    → lookup path d.files ≡ none
    → lookup path (disk_of (kickstart_build_ubuntu fs p f env_file m d)).files ≡ none
unfolding kickstart_build_ubuntu lit
kickstart_build_ubuntu-cleans fs p f env_file dir path m d made under fresh =
    elim (Bool-cases (is_empty f.source_iso)) [
      | inl h ↦ rw h fresh
      | inr h1 ↦ elim (Bool-cases (is_empty f.node)) [
        | inl h ↦ rw (h1, h) fresh
        | inr h2 ↦ elim (Result-cases (load_env_manifest p env_file)) [
          | inr (e, h) ↦ rw (h1, h2, h) fresh
          | inl (env, h3) ↦ elim (Result-cases (new_renderer_from_fs fs)) [
            | inr (e, h) ↦ rw (h1, h2, h3, h) fresh
            | inl (r, h4) ↦
                elim (Result-cases (render_template r (some env) f.node (lit "user-data.tmpl"))) [
                  | inr (e, h) ↦ rw (h1, h2, h3, h4, h) fresh
                  | inl (u, h5) ↦
                      elim (Result-cases
                        (render_template r (some env) f.node (lit "meta-data.tmpl"))) [
                          | inr (e, h) ↦ rw (h1, h2, h3, h4, h5, h) fresh
                          | inl (t, h6) ↦
                              rw (h1, h2, h3, h4, h5, h6, made)
                                (cleared-none dir path (ubuntu_in f u t dir m d) under)
                        ]
                ]
          ]
        ]
      ]
    ]

-- ===== src/Root/Tests/Generate.antt =====
-- `kickstart generate` and `kickstart build-ubuntu` for the one node of a manifest.
use proxclt.Base.{lit, All, true, false, none, some, [], ◌∷◌, ok, split, join, ◌≡◌, refl}
use proxclt.Config.Model.{lookup, Env, Hypervisor, resolved}
use proxclt.Config.Tests.Rules.{env_of, hypervisor_of, inline_of}
use proxclt.Workflow.Tests.Hosts.{vm_node}
use proxclt.Workflow.Multi.{keys}
use proxclt.Kickstart.Renderer.{TemplateFiles, Renderer, new_renderer_from_fs}
use proxclt.Kickstart.Disk.{DiskState, disk_of, is_under, clean_path}
use proxclt.Kickstart.Disk.Paths.{is_name}
use proxclt.Kickstart.Tests.{debian_kickstart}
use proxclt.Kickstart.Tests.Iso.{machine}
use proxclt.Root.Process.{Process, load_env_manifest}
use proxclt.Root.Kickstart.{kickstart_generate, generate_nodes}
use proxclt.Root.Kickstart.Generated.{Holds, kickstart_generate-Holds}
use proxclt.Root.Kickstart.Build.{UbuntuFlags, kickstart_build_ubuntu}
use proxclt.Root.Kickstart.Cleaned.{kickstart_build_ubuntu-cleans}
use proxclt.Root.Tests.{process}

-- A set whose template prints its name.
abbrev templates : TemplateFiles
templates = record {
  read_dir = ok ((lit "debian12", true) ∷ []);
  glob = λ pattern. ok (pattern ∷ []);
  parse = λ files t. ok (record {
    names = lit "preseed.cfg.tmpl" ∷ lit "user-data.tmpl" ∷ lit "meta-data.tmpl" ∷ [];
    execute_template = λ name context. ok name;
  });
}

abbrev renderer : Renderer
renderer = record {
  entries =
      (
        lit "debian12",
        record {
          names = lit "preseed.cfg.tmpl" ∷ lit "user-data.tmpl" ∷ lit "meta-data.tmpl" ∷ [];
          execute_template = λ name context. ok name;
        },
      )
      ∷ [];
  distros = lit "debian12" ∷ [];
}

abbrev hypervisor : Hypervisor
hypervisor = record (hypervisor_of ((lit "a", vm_node) ∷ [])) { kickstart = some debian_kickstart }

abbrev manifest : Env
manifest = record (env_of []) {
  spec = record (env_of []).spec { hypervisor = inline_of hypervisor };
}

abbrev started : Process
started = record (process false) { load = λ path. ok manifest }

abbrev empty_disk : DiskState
empty_disk = record { files = []; events = [] }

abbrev left : DiskState
left = record {
  files = (lit "out/a.ks", record { content = lit "preseed.cfg.tmpl"; writable = true }) ∷ [];
  events = [];
}

generated :
    kickstart_generate templates started [] [] (lit "out") machine empty_disk ≡ (ok tt, left)
unfolding kickstart_generate lit generate_nodes join split
generated = refl

kickstart_generate-Holds_example :
    All (Holds renderer manifest (lit "out") left.files) (lit "a" ∷ [])
unfolding load_env_manifest new_renderer_from_fs generate_nodes lit is_name resolved keys
kickstart_generate-Holds_example =
    kickstart_generate-Holds templates started [] [] (lit "out") machine empty_disk left manifest
      renderer (lit "a" ∷ []) refl refl refl (refl, tt) generated

abbrev ubuntu : UbuntuFlags
ubuntu = record { node = lit "a"; source_iso = lit "ubuntu.iso"; out = []; work_dir = [] }

kickstart_build_ubuntu-cleans_example :
    lookup
      (lit "/tmp/b1/user-data")
      (disk_of (kickstart_build_ubuntu templates started ubuntu [] machine empty_disk)).files
    ≡ none
unfolding is_under clean_path lit lookup join split
kickstart_build_ubuntu-cleans_example =
    kickstart_build_ubuntu-cleans templates started ubuntu [] (lit "/tmp/b1")
      (lit "/tmp/b1/user-data") machine empty_disk refl refl refl

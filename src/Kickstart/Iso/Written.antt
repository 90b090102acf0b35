-- ===== src/Kickstart/Iso/Written.antt =====
-- What Build of pkg/kickstart/iso_builder.go hands to the ISO tool, and what it leaves behind.
use proxclt.Base.{
  Str, lit, str_eq, str_eq_iff, true, Option, none, some, List, [], ◌∷◌, ◌++◌, wrapf, Error, Result,
  ok, err, ◌≡◌, ◌≢◌, refl, ap, ◌∙◌,
}
use proxclt.Config.Model.{Dict, lookup}
use proxclt.Kickstart.Disk.{
  Machine, DiskState, told, next, done, ran, cleared, join_path, drop_file, put_file, drop_under,
  File, store, stored, write_file, write_refusal,
}
use proxclt.Kickstart.Disk.Paths.{
  lookup-drop_file_same, lookup-drop_file, lookup-put_file_same, lookup-put_file, is_name,
  join_path-injective,
}
use proxclt.Kickstart.Iso.{
  IsoBuilder, build_isolinux_cfg, copy_dir, write_anew, stage, command_of, run_tool, burn,
  work_root, iso_path, check_builder, scratch_dir, build_in, build_iso_file,
}

abbrev pub written : Str → File
written text = record { content = text; writable = true }

abbrev with_anew : Str → Str → DiskState → DiskState
with_anew path text d = record d { files = put_file path (written text) (drop_file path d.files) }

store-ok :
    (m : Machine) (path : Str) (f : File) (d : DiskState)
    → write_refusal m path (lookup path d.files) ≡ none
    → store path f m d ≡ (ok tt, record d { files = put_file path f d.files })
unfolding store
store-ok m path f d h = ap (stored d path f) h

-- A file that was removed can be written, whatever its mode was.
write_anew-ok :
    (m : Machine) (path text : Str) (d : DiskState)
    → m.write_error path ≡ none
    → write_anew path text m d ≡ (ok tt, with_anew path text d)
unfolding write_anew write_file write_refusal
write_anew-ok m path text d h =
    store-ok m path (written text) (record d { files = drop_file path d.files })
      (ap (write_refusal m path) (lookup-drop_file_same path d.files) ∙ h)

abbrev ks_path : Str → Str
ks_path dir = join_path dir (lit "ks.cfg")

abbrev cfg_path : Str → Str
cfg_path dir = join_path dir (lit "isolinux.cfg")

names_differ : (dir : Str) → ks_path dir ≢ cfg_path dir
unfolding lit is_name str_eq
names_differ dir e =
    cc ((str_eq_iff (lit "ks.cfg") (lit "isolinux.cfg")).1 (join_path-injective dir refl refl e))

-- The files that the tool finds.
abbrev seen_by_tool : IsoBuilder → Str → Str → Str → DiskState → DiskState
seen_by_tool b ks dir out copied =
    let staged =
      with_anew (cfg_path dir) (build_isolinux_cfg b.source_iso_label)
        (with_anew (ks_path dir) ks copied) in
    record staged { files = drop_file out staged.files }

stage-ok :
    (m : Machine) (b : IsoBuilder) (ks dir : Str) (d copied : DiskState)
    → copy_dir b.bootloader_dir dir m d ≡ (ok tt, copied)
    → m.write_error (ks_path dir) ≡ none
    → m.write_error (cfg_path dir) ≡ none
    → stage b ks dir m d ≡ (
      ok tt,
      with_anew
          (cfg_path dir)
          (build_isolinux_cfg b.source_iso_label)
          (with_anew (ks_path dir) ks copied),
    )
unfolding stage
stage-ok m b ks dir d copied c h g =
    rw (c, write_anew-ok m (ks_path dir) ks copied h)
      (ap (told (wrapf "write isolinux.cfg: %w" [])) (
        write_anew-ok m (cfg_path dir) (build_isolinux_cfg b.source_iso_label)
          (with_anew (ks_path dir) ks copied) g))

seen-ks :
    (b : IsoBuilder) (ks dir out : Str) (copied : DiskState)
    → ks_path dir ≢ out
    → lookup (ks_path dir) (seen_by_tool b ks dir out copied).files ≡ some (written ks)
seen-ks b ks dir out copied ne =
    let cfg = build_isolinux_cfg b.source_iso_label in
    let after = with_anew (ks_path dir) ks copied in
    lookup-drop_file (ks_path dir) out (with_anew (cfg_path dir) cfg after).files ne
    ∙ lookup-put_file (ks_path dir) (cfg_path dir) (written cfg)
        (drop_file (cfg_path dir) after.files) (names_differ dir)
    ∙ lookup-drop_file (ks_path dir) (cfg_path dir) after.files (names_differ dir)
    ∙ lookup-put_file_same (ks_path dir) (written ks) (drop_file (ks_path dir) copied.files)

seen-cfg :
    (b : IsoBuilder) (ks dir out : Str) (copied : DiskState)
    → cfg_path dir ≢ out
    → lookup (cfg_path dir) (seen_by_tool b ks dir out copied).files
      ≡ some (written (build_isolinux_cfg b.source_iso_label))
seen-cfg b ks dir out copied ne =
    let cfg = build_isolinux_cfg b.source_iso_label in
    let after = with_anew (ks_path dir) ks copied in
    lookup-drop_file (cfg_path dir) out (with_anew (cfg_path dir) cfg after).files ne
    ∙ lookup-put_file_same (cfg_path dir) (written cfg) (drop_file (cfg_path dir) after.files)

-- What Build returns, and the files that are left, after a run of the tool.
abbrev pub verdict_of : Str → Str → Option Error × Str × Dict File → Result Str
verdict_of tool out (none, printed, files) = ok out
verdict_of tool out (some e, printed, files) =
    err (wrapf "%s failed: %w: %s" (tool ∷ printed ∷ []) e)

abbrev pub left_by : Option Error × Str × Dict File → Dict File
left_by (e, printed, files) = files

run_tool-ran :
    (m : Machine) (tool out : Str) (d : DiskState) (x : Option Error × Str × Dict File)
    → next {A = Str}
        (λ printed. done (ok out))
        m
        (ran (λ e printed. wrapf "%s failed: %w: %s" (tool ∷ printed ∷ []) e) d x)
      ≡ (verdict_of tool out x, record d { files = left_by x })
run_tool-ran m tool out d (none, printed, files) = refl
run_tool-ran m tool out d (some e, printed, files) = refl

-- Where the builder is usable, the scratch directory is made, the bootloader is copied into it and
-- nothing but a mode forbids to write ks.cfg and isolinux.cfg, the tool runs, once, on files among
-- which these two are the ones of this build, whatever the bootloader had under their names and with
-- what mode; the path of the ISO is returned if the tool succeeds, its error and output if not; and
-- the scratch directory is removed after it.
pub build_iso_file-Written :
    (m : Machine) (b : IsoBuilder) (ks hostname dir : Str) (d copied : DiskState) (args : List Str)
    → check_builder b m d ≡ (ok tt, d)
    → m.mkdir_temp d.files (work_root m b.work_dir) (lit "proxctl-iso-" ++ hostname ++ lit "-")
      ≡ ok dir
    → copy_dir b.bootloader_dir dir m d ≡ (ok tt, copied)
    → m.write_error (join_path dir (lit "ks.cfg")) ≡ none
    → m.write_error (join_path dir (lit "isolinux.cfg")) ≡ none
    → command_of b.tool (iso_path m b hostname) dir ≡ some args
    → join_path dir (lit "ks.cfg") ≢ iso_path m b hostname
    → join_path dir (lit "isolinux.cfg") ≢ iso_path m b hostname
    → (seen : Dict File) × (lookup (join_path dir (lit "ks.cfg")) seen ≡ some (written ks))
      × (lookup (join_path dir (lit "isolinux.cfg")) seen
          ≡ some (written (build_isolinux_cfg b.source_iso_label)))
      × (build_iso_file b ks hostname m d ≡ (
        verdict_of b.tool (iso_path m b hostname) (m.run b.tool args seen),
        record copied { files = drop_under dir (left_by (m.run b.tool args seen)) },
      ))
unfolding build_iso_file build_in burn run_tool scratch_dir
build_iso_file-Written m b ks hostname dir d copied args usable made copied_all w1 w2 cmd ne1 ne2 =
    let out = iso_path m b hostname in
    let s = seen_by_tool b ks dir out copied in
    (
      s.files,
      seen-ks b ks dir out copied ne1,
      seen-cfg b ks dir out copied ne2,
      rw (usable, made, stage-ok m b ks dir d copied copied_all w1 w2, cmd)
          (ap (cleared dir) (run_tool-ran m b.tool out s (m.run b.tool args s.files))),
    )

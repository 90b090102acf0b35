-- ===== src/Kickstart/Tests/Iso.antt =====
-- A build on a machine whose bootloader has a read-only isolinux.cfg.
use proxclt.Base.{
  Str, lit, str_eq, is_empty, join, split, false, none, some, List, [], ◌∷◌, errorf, ok, err, ◌≡◌,
  refl,
}
use proxclt.Config.Model.{Dict, lookup}
use proxclt.World.{Host, failed}
use proxclt.Kickstart.Disk.{
  File, DiskState, Machine, disk_of, join_path, drop_under, is_under, clean_path,
}
use proxclt.Kickstart.Iso.{
  IsoBuilder, build_isolinux_cfg, copy_dir, command_of, work_root, iso_path, check_builder,
  build_iso_file, iso_args,
}
use proxclt.Kickstart.Iso.Written.{written, verdict_of, left_by, build_iso_file-Written}
use proxclt.Kickstart.Iso.Cleaned.{build_iso_file-cleans}

abbrev silent : Host
silent = record {
  reply = λ hist. failed (errorf "no network" []);
  decode = λ s. none;
  render = λ env name. err (errorf "no template" []);
  build = λ ks name. err (errorf "no builder" []);
  open_file = λ path. none;
  probe = λ hist. none;
  patience = 0;
  attempts = 0;
  canceled = errorf "context canceled" [];
}

-- Every program succeeds and leaves an ISO.
abbrev pub machine : Machine
machine = record {
  host = silent;
  look_path = λ program. none;
  temp_dir = lit "/tmp";
  mkdir_temp = λ files parent pattern. ok (lit "/tmp/b1");
  mkdir_all = λ files path. none;
  stat = λ files path. none;
  read_dir = λ files path. ok ((lit "isolinux.cfg", false) ∷ []);
  no_entry = λ path. errorf "no such file" [];
  denied = λ path. errorf "permission denied" [];
  read_error = λ path. none;
  write_error = λ path. none;
  rename_error = λ files from to. none;
  run = λ program args files. (none, [], (lit "/tmp/proxctl-n1.iso", written (lit "iso")) ∷ files);
}

abbrev builder : IsoBuilder
builder = record {
  tool = lit "xorriso";
  bootloader_dir = lit "/boot";
  work_dir = [];
  source_iso_label = lit "OL9";
}

abbrev before : DiskState
before = record {
  files = (lit "/boot/isolinux.cfg", record { content = lit "old"; writable = false }) ∷ [];
  events = [];
}

abbrev copied : DiskState
copied = record {
  files =
      (lit "/tmp/b1/isolinux.cfg", record { content = lit "old"; writable = false })
      ∷ (lit "/boot/isolinux.cfg", record { content = lit "old"; writable = false })
      ∷ [];
  events = [];
}

abbrev arguments : List Str
arguments = lit "-as" ∷ lit "mkisofs" ∷ iso_args (lit "/tmp/proxctl-n1.iso") (lit "/tmp/b1")

bootloader_is_copied : copy_dir (lit "/boot") (lit "/tmp/b1") machine before ≡ (ok tt, copied)
unfolding copy_dir lit join split
bootloader_is_copied = refl

iso_is_named : iso_path machine builder (lit "n1") ≡ lit "/tmp/proxctl-n1.iso"
unfolding iso_path lit join split
iso_is_named = refl

build_iso_file-Written_example :
    (seen : Dict File) × (lookup (join_path (lit "/tmp/b1") (lit "ks.cfg")) seen
      ≡ some (written (lit "text")))
    × (lookup (join_path (lit "/tmp/b1") (lit "isolinux.cfg")) seen
        ≡ some (written (build_isolinux_cfg builder.source_iso_label)))
    × (build_iso_file builder (lit "text") (lit "n1") machine before ≡ (
      verdict_of builder.tool
          (iso_path machine builder (lit "n1"))
          (machine.run builder.tool arguments seen),
      record copied {
        files = drop_under (lit "/tmp/b1") (left_by (machine.run builder.tool arguments seen));
      },
    ))
unfolding check_builder command_of iso_path join_path work_root lit is_empty str_eq join split
build_iso_file-Written_example =
    build_iso_file-Written machine builder (lit "text") (lit "n1") (lit "/tmp/b1") before copied
      arguments refl refl bootloader_is_copied refl refl refl (λ e. cc e) (λ e. cc e)

build_iso_file-cleans_example :
    lookup
      (lit "/tmp/b1/ks.cfg")
      (disk_of (build_iso_file builder (lit "text") (lit "n1") machine before)).files
    ≡ none
unfolding is_under clean_path lit lookup work_root join split
build_iso_file-cleans_example =
    build_iso_file-cleans machine builder (lit "text") (lit "n1") (lit "/tmp/b1")
      (lit "/tmp/b1/ks.cfg") before refl refl refl

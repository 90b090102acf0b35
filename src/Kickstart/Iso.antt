-- ===== src/Kickstart/Iso.antt =====
-- pkg/kickstart/iso_builder.go: a boot ISO of the files of a bootloader and a kickstart.
pub mod Written
pub mod Cleaned
use proxclt.Base.{
  Str, lit, str_eq, is_empty, Bool, true, false, ◌||◌, if◌then◌else◌, Option, none, some, List, [],
  ◌∷◌, ◌++◌, errorf, wrapf, Error, Result, ok, err, refuse_if,
}
use proxclt.World.{no_error}
use proxclt.Kickstart.Disk.{
  Machine, Job, done, ask, ◌>>=◌, ◌>>◌, telling, join_path, remove, removing_all, File, store,
  write_file, read_file, run_command,
}

pub record IsoBuilder : Type 0 where
  pub tool : Str
  pub bootloader_dir : Str
  pub work_dir : Str
  pub source_iso_label : Str

abbrev found : Option Error → Bool
found none = true
found (some e) = false

unfoldable pub detect_tool : Machine → Str
unfolding lit
detect_tool m =
    if found (m.look_path (lit "xorriso"))
    then lit "xorriso"
    else if found (m.look_path (lit "mkisofs"))
    then lit "mkisofs"
    else if found (m.look_path (lit "genisoimage"))
    then lit "genisoimage"
    else []

unfoldable pub new_iso_builder : Machine → Str → IsoBuilder
unfolding detect_tool
new_iso_builder m dir = record {
  tool = detect_tool m;
  bootloader_dir = dir;
  work_dir = [];
  source_iso_label = [];
}

unfoldable pub append_line : Str → Str
unfolding is_empty lit
append_line label =
    if is_empty label
    then lit "  APPEND initrd=initrd.img inst.ks=cdrom:/ks.cfg inst.text\n"
    else lit "  APPEND initrd=initrd.img ip=dhcp inst.stage2=hd:LABEL="
      ++ label
      ++ lit " inst.repo=hd:LABEL="
      ++ label
      ++ lit " inst.ks=cdrom:/ks.cfg inst.text\n"

unfoldable pub build_isolinux_cfg : Str → Str
unfolding append_line lit
build_isolinux_cfg label =
    lit "DEFAULT linux\nPROMPT 0\nTIMEOUT 10\nLABEL linux\n  KERNEL vmlinuz\n" ++ append_line label

-- copyFile, with the mode of the source
unfoldable pub copy_file : Str → Str → Job (Unit {0})
unfolding read_file store
copy_file src dst = do f ← read_file src; store dst f

unfoldable pub copy_entries : Str → Str → List (Str × Bool) → Job (Unit {0})
unfolding copy_file join_path
copy_entries src dst [] = done (ok tt)
copy_entries src dst ((name, true) ∷ rest) = copy_entries src dst rest
copy_entries src dst ((name, false) ∷ rest) = do
  copy_file (join_path src name) (join_path dst name)
  copy_entries src dst rest

unfoldable pub copy_dir : Str → Str → Job (Unit {0})
unfolding copy_entries
copy_dir src dst = do entries ← ask (λ m files. m.read_dir files src); copy_entries src dst entries

-- The file is removed, whatever it was, and written anew.
unfoldable pub write_anew : Str → Str → Job (Unit {0})
unfolding write_file
write_anew path text = do remove path; write_file path text

-- What the builder puts into the directory of which the ISO is made.
unfoldable pub stage : IsoBuilder → Str → Str → Job (Unit {0})
unfolding copy_dir write_anew join_path build_isolinux_cfg lit
stage b ks dir = do
  telling (wrapf "copy bootloader: %w" []) (copy_dir b.bootloader_dir dir)
  telling (wrapf "write ks.cfg: %w" []) (write_anew (join_path dir (lit "ks.cfg")) ks)
  telling (wrapf "write isolinux.cfg: %w" [])
      (write_anew (join_path dir (lit "isolinux.cfg")) (build_isolinux_cfg b.source_iso_label))

unfoldable pub iso_args : Str → Str → List Str
unfolding lit
iso_args out dir =
    lit "-o"
    ∷ out
    ∷ lit "-b"
    ∷ lit "isolinux.bin"
    ∷ lit "-c"
    ∷ lit "boot.cat"
    ∷ lit "-no-emul-boot"
    ∷ lit "-boot-load-size"
    ∷ lit "4"
    ∷ lit "-boot-info-table"
    ∷ lit "-V"
    ∷ lit "Kickstart"
    ∷ lit "-J"
    ∷ lit "-r"
    ∷ dir
    ∷ []

-- The arguments for a tool, where the switch has a case for it.
unfoldable pub command_of : Str → Str → Str → Option (List Str)
unfolding iso_args str_eq lit
command_of tool out dir =
    if str_eq tool (lit "xorriso")
    then some (lit "-as" ∷ lit "mkisofs" ∷ iso_args out dir)
    else if str_eq tool (lit "mkisofs") || str_eq tool (lit "genisoimage")
    then some (iso_args out dir)
    else none

unfoldable pub run_tool : Str → Option (List Str) → Job Str
run_tool tool none = done (err (errorf "unknown tool %q" (tool ∷ [])))
run_tool tool (some args) =
    run_command (λ e out. wrapf "%s failed: %w: %s" (tool ∷ out ∷ []) e) tool args

-- The ISO of the directory, which replaces one that is there.
unfoldable pub burn : IsoBuilder → Str → Str → Job Str
unfolding run_tool command_of
burn b out dir = do
  remove out
  run_tool b.tool (command_of b.tool out dir) >>= (λ printed. done (ok out))

unfoldable pub work_root : Machine → Str → Str
unfolding is_empty
work_root m dir = if is_empty dir then m.temp_dir else dir

unfoldable pub iso_path : Machine → IsoBuilder → Str → Str
unfolding join_path work_root lit
iso_path m b hostname =
    join_path (work_root m b.work_dir) (lit "proxctl-" ++ hostname ++ lit ".iso")

unfoldable pub check_builder : IsoBuilder → Job (Unit {0})
unfolding is_empty join_path lit
check_builder b = do
  done
      (refuse_if (is_empty b.tool) (errorf "no ISO tool available (install xorriso or mkisofs)" []))
  done (refuse_if (is_empty b.bootloader_dir) (errorf "BootloaderDir is required" []))
  telling (wrapf "bootloader dir missing isolinux.bin: %w" [])
      (ask (λ m files. no_error (m.stat files (join_path b.bootloader_dir (lit "isolinux.bin")))))

unfoldable pub scratch_dir : IsoBuilder → Str → Job Str
unfolding work_root lit
scratch_dir b hostname = telling (wrapf "mkdtemp: %w" []) (
    ask (λ m files.
      m.mkdir_temp files (work_root m b.work_dir) (lit "proxctl-iso-" ++ hostname ++ lit "-")))

-- What is done in the directory that os.MkdirTemp made.
unfoldable pub build_in : IsoBuilder → Str → Str → Str → Job Str
unfolding stage burn iso_path
build_in b ks hostname dir = do stage b ks dir; λ m. burn b (iso_path m b hostname) dir m

-- ISOBuilder.Build
unfoldable pub build_iso_file : IsoBuilder → Str → Str → Job Str
unfolding check_builder scratch_dir build_in
build_iso_file b ks hostname = do
  check_builder b
  dir ← scratch_dir b hostname
  removing_all dir (build_in b ks hostname dir)

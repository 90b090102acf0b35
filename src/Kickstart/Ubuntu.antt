-- ===== src/Kickstart/Ubuntu.antt =====
-- UbuntuISOBuilder.Build of pkg/kickstart/ubuntu_iso_builder.go: an install ISO that is repacked with
-- the cidata files and patched boot configurations.
use proxclt.Base.{
  Str, lit, is_empty, Bool, true, false, if◌then◌else◌, List, [], ◌∷◌, ◌++◌, errorf, wrapf, Result,
  ok, err, refuse_if,
}
use proxclt.Kickstart.Disk.{
  DiskState, File, Job, done, ask, ◌>>=◌, ◌>>◌, telling, join_path, removing_all, read_file,
  write_file, run_command,
}
use proxclt.Kickstart.Cmdline.{patch_kernel_cmdline}
use proxclt.Kickstart.Extract.{check_file, check_program}
use proxclt.Kickstart.Iso.{work_root}

pub record UbuntuIsoBuilder : Type 0 where
  pub source_iso_path : Str
  pub cidata_dir : Str
  pub work_dir : Str
  pub autoinstall_kernel_args : Str

unfoldable pub new_ubuntu_iso_builder : Str → Str → UbuntuIsoBuilder
unfolding lit
new_ubuntu_iso_builder iso cidata = record {
  source_iso_path = iso;
  cidata_dir = cidata;
  work_dir = [];
  autoinstall_kernel_args = lit "autoinstall ds=nocloud\\;s=/cdrom/cidata/";
}

-- patchKernelCmdline on files
unfoldable pub patch_file : Str → Str → Str → Job (Unit {0})
unfolding read_file write_file patch_kernel_cmdline
patch_file src dst args = do f ← read_file src; write_file dst (patch_kernel_cmdline args f.content)

-- os.Create and io.Copy
copy_content : Str → File → Job (Unit {0})
unfolding write_file
copy_content dst f = write_file dst f.content

extract_in : Str → Str → Str → Str → Str → Job (Unit {0})
unfolding read_file copy_content join_path lit
extract_in iso src name dst dir =
    run_command (λ e out. wrapf "xorriso extract: %w: %s" (out ∷ []) e) (lit "xorriso")
      (lit "-osirrox"
        ∷ lit "on"
        ∷ lit "-indev"
        ∷ iso
        ∷ lit "-extract"
        ∷ (lit "/" ++ src)
        ∷ join_path dir name
        ∷ [])
    >>= (λ out. telling (wrapf "read extracted: %w" []) (read_file (join_path dir name)))
    >>= copy_content dst

-- extractISOFile; `name` is the base name of the path on the ISO.
unfoldable pub extract_iso_file : Str → Str → Str → Str → Job (Unit {0})
unfolding extract_in lit
extract_iso_file iso src name dst = do
  dir ← ask (λ m files. m.mkdir_temp files [] (lit "proxctl-extract-"))
  removing_all dir (extract_in iso src name dst dir)

-- An error that is dropped.
abbrev unless_failed {ℓ} : {A : Type ℓ} → Result A × DiskState → Result Bool × DiskState
unless_failed (ok a, d) = (ok true, d)
unless_failed (err e, d) = (ok false, d)

abbrev attempted {ℓ} : {A : Type ℓ} → Job A → Job Bool
attempted job m d = unless_failed (job m d)

check_cidata : Str → Str → Job (Unit {0})
unfolding check_file join_path
check_cidata dir name =
    telling (wrapf "cidata dir missing %s: %w" (name ∷ [])) (check_file (join_path dir name))

-- The second error is replaced, the cause is dropped.
unfoldable pub check_ubuntu : UbuntuIsoBuilder → Job (Unit {0})
unfolding check_file check_program check_cidata is_empty lit
check_ubuntu b = do
  done (
      refuse_if (is_empty b.source_iso_path)
        (errorf "UbuntuISOBuilder: SourceISOPath is required" []))
  done (refuse_if (is_empty b.cidata_dir) (errorf "UbuntuISOBuilder: CIDataDir is required" []))
  telling (wrapf "source ISO not found: %w" []) (check_file b.source_iso_path)
  check_cidata b.cidata_dir (lit "user-data")
  check_cidata b.cidata_dir (lit "meta-data")
  telling (λ e. errorf "xorriso not on PATH (Ubuntu ISO repack requires xorriso)" [])
      (check_program (lit "xorriso"))

-- The patched txt.cfg, where the ISO has one.
patch_isolinux : UbuntuIsoBuilder → Str → Bool → Job (Unit {0})
unfolding patch_file join_path lit
patch_isolinux b dir false = done (ok tt)
patch_isolinux b dir true = telling (wrapf "patch isolinux/txt.cfg: %w" []) (
    patch_file (join_path dir (lit "orig-txt.cfg")) (join_path dir (lit "txt.cfg"))
      b.autoinstall_kernel_args)

unfoldable pub repack_args : UbuntuIsoBuilder → Str → Str → Bool → List Str
unfolding join_path lit
repack_args b dir out has_isolinux =
    (lit "-indev"
      ∷ b.source_iso_path
      ∷ lit "-outdev"
      ∷ out
      ∷ lit "-boot_image"
      ∷ lit "any"
      ∷ lit "replay"
      ∷ lit "-map"
      ∷ join_path dir (lit "grub.cfg")
      ∷ lit "/boot/grub/grub.cfg"
      ∷ lit "-map"
      ∷ join_path b.cidata_dir (lit "user-data")
      ∷ lit "/cidata/user-data"
      ∷ lit "-map"
      ∷ join_path b.cidata_dir (lit "meta-data")
      ∷ lit "/cidata/meta-data"
      ∷ [])
    ++ (if has_isolinux
        then lit "-map" ∷ join_path dir (lit "txt.cfg") ∷ lit "/isolinux/txt.cfg" ∷ []
        else [])
    ++ (lit "-joliet" ∷ lit "on" ∷ lit "-rockridge" ∷ lit "on" ∷ [])

-- What is done in the scratch directory, which stays: the ISO lives there.
unfoldable pub remaster : UbuntuIsoBuilder → Str → Str → Job Str
unfolding extract_iso_file patch_file patch_isolinux repack_args check_file join_path lit
remaster b hostname dir = do
  telling (wrapf "extract %s: %w" (lit "boot/grub/grub.cfg" ∷ [])) (
      extract_iso_file b.source_iso_path (lit "boot/grub/grub.cfg") (lit "grub.cfg")
        (join_path dir (lit "orig-grub.cfg")))
  extracted ← attempted (
      extract_iso_file b.source_iso_path (lit "isolinux/txt.cfg") (lit "txt.cfg")
        (join_path dir (lit "orig-txt.cfg")))
  telling (wrapf "patch grub.cfg: %w" []) (
      patch_file (join_path dir (lit "orig-grub.cfg")) (join_path dir (lit "grub.cfg"))
        b.autoinstall_kernel_args)
  has_isolinux ← attempted (check_file (join_path dir (lit "orig-txt.cfg")))
  patch_isolinux b dir has_isolinux
  let out = join_path dir (hostname ++ lit "_install_autoinstall.iso")
  run_command (λ e printed. wrapf "xorriso repack failed: %w: %s" (printed ∷ []) e) (lit "xorriso")
        (repack_args b dir out has_isolinux)
      >>= (λ printed. done (ok out))

-- UbuntuISOBuilder.Build
unfoldable pub build_ubuntu_iso : UbuntuIsoBuilder → Str → Job Str
unfolding check_ubuntu remaster work_root lit
build_ubuntu_iso b hostname = do
  check_ubuntu b
  dir ← telling (wrapf "mkdtemp: %w" []) (
      ask (λ m files.
        m.mkdir_temp files (work_root m b.work_dir) (lit "proxctl-ubuntu-" ++ hostname ++ lit "-")))
  remaster b hostname dir

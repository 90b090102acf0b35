-- ===== src/Kickstart/Extract.antt =====
-- pkg/kickstart/iso_extractor.go: the volume label and the bootloader of an install ISO.
pub mod Label
use mathlib.Core.List.{reverse}
use proxclt.Base.{
  ℕ, ◌*◌, leb, length, Str, lit, is_empty, has_prefix, trim_space, cut_byte, ◌==◌, Bool, true,
  false, ◌||◌, if◌then◌else◌, Option, none, some, List, [], ◌∷◌, errorf, wrapf, ok, require,
  refuse_if,
}
use proxclt.World.{no_error}
use proxclt.Trace.Reader.{lines_from, drop_return}
use proxclt.Kickstart.Disk.{Job, done, ask, ◌>>=◌, ◌>>◌, telling, join_path, run_command}

-- The errors of os.Stat and of exec.LookPath.
unfoldable pub check_file : Str → Job (Unit {0})
check_file path = ask (λ m files. no_error (m.stat files path))

unfoldable pub check_program : Str → Job (Unit {0})
check_program name = ask (λ m files. no_error (m.look_path name))

unfoldable pub is_quote : ℕ → Bool
is_quote c = c == b'\'' || c == b'"'

unfoldable pub drop_quotes : Str → Str
unfolding is_quote
drop_quotes [] = []
drop_quotes (c ∷ s) = elim (is_quote c) [ true ↦ drop_quotes s | false ↦ c ∷ s ]

-- strings.Trim(label, "'\"")
unfoldable pub trim_quotes : Str → Str
unfolding drop_quotes
trim_quotes s = reverse (drop_quotes (reverse (drop_quotes s)))

label_after : Option (Str × Str) → Str
unfolding trim_quotes trim_space
label_after none = []
label_after (some (key, value)) = trim_quotes (trim_space value)

unfoldable pub label_in : Str → Str
unfolding label_after cut_byte has_prefix lit
label_in text = if has_prefix text (lit "Volume id") then label_after (cut_byte b':' text) else []

-- The label that a line names, or the empty text.
unfoldable pub label_of : Str → Str
unfolding label_in trim_space
label_of line = label_in (trim_space line)

-- bufio.MaxScanTokenSize: the scanner stops at a line that does not fit.
abbrev pub max_token : ℕ
max_token = 64 * 1024

unfoldable pub first_label : List Str → Option Str
unfolding label_of is_empty
first_label [] = none
first_label (line ∷ rest) =
    let later = first_label rest in
    if leb max_token (length line)
    then none
    else if is_empty (label_of (drop_return line))
    then later
    else some (label_of (drop_return line))

-- ReadVolumeLabel
unfoldable pub read_volume_label : Str → Job Str
unfolding first_label check_file check_program is_empty lit
read_volume_label iso = do
  done (refuse_if (is_empty iso) (errorf "ReadVolumeLabel: sourceISO is required" []))
  telling (wrapf "source ISO not found: %w" []) (check_file iso)
  telling (wrapf "xorriso not found in PATH: %w" []) (check_program (lit "xorriso"))
  out ←
      run_command (λ e out. wrapf "xorriso -toc failed: %w: %s" (out ∷ []) e) (lit "xorriso")
        (lit "-indev" ∷ iso ∷ [])
  done (
      require (errorf "could not find Volume id in xorriso -toc output" [])
        (first_label (lines_from [] out)))

unfoldable pub required_bootloader_files : List Str
unfolding lit
required_bootloader_files =
    lit "isolinux.bin" ∷ lit "ldlinux.c32" ∷ lit "vmlinuz" ∷ lit "initrd.img" ∷ []

unfoldable pub check_required : Str → List Str → Job (Unit {0})
unfolding check_file join_path
check_required dir [] = done (ok tt)
check_required dir (name ∷ rest) = do
  telling
      (wrapf "required bootloader file %q missing after extraction (looked in %s): %w"
        (name ∷ dir ∷ []))
      (check_file (join_path dir name))
  check_required dir rest

-- ExtractBootloader
unfoldable pub extract_bootloader : Str → Str → Job (Unit {0})
unfolding check_file check_program check_required required_bootloader_files is_empty lit
extract_bootloader iso dir = do
  done (refuse_if (is_empty iso) (errorf "ExtractBootloader: sourceISO is required" []))
  done (refuse_if (is_empty dir) (errorf "ExtractBootloader: destDir is required" []))
  telling (wrapf "source ISO not found: %w" []) (check_file iso)
  telling (wrapf "xorriso not found in PATH (install xorriso): %w" [])
      (check_program (lit "xorriso"))
  telling (wrapf "mkdir destDir: %w" []) (ask (λ m files. no_error (m.mkdir_all files dir)))
  run_command (λ e out. wrapf "xorriso extract /isolinux failed: %w: %s" (out ∷ []) e)
        (lit "xorriso")
        (lit "-osirrox"
          ∷ lit "on"
          ∷ lit "-indev"
          ∷ iso
          ∷ lit "-extract"
          ∷ lit "/isolinux"
          ∷ dir
          ∷ [])
      >>= (λ out. check_required dir required_bootloader_files)

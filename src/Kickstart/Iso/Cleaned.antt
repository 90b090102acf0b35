-- ===== src/Kickstart/Iso/Cleaned.antt =====
-- What a Build of pkg/kickstart/iso_builder.go leaves of its scratch directory.
use proxclt.Base.{
  Str, lit, is_empty, Bool-cases, true, none, ◌++◌, Result, ok, err, ◌≡◌, inl, inr, refl,
}
use proxclt.Config.Model.{lookup}
use proxclt.Kickstart.Disk.{Machine, DiskState, next, cleared, disk_of, is_under}
use proxclt.Kickstart.Disk.Paths.{lookup-drop_under}
use proxclt.Kickstart.Iso.{
  IsoBuilder, work_root, check_builder, scratch_dir, build_in, build_iso_file,
}

abbrev Keeps : DiskState → Result (Unit {0}) × DiskState → Type 0
Keeps d (r, after) = after ≡ d

-- The checks change nothing.
check_builder-Keeps : (b : IsoBuilder) (m : Machine) (d : DiskState) → Keeps d (check_builder b m d)
unfolding check_builder
check_builder-Keeps b m d = elim (Bool-cases (is_empty b.tool)) [
  | inl h ↦ rw h refl
  | inr h ↦ elim (Bool-cases (is_empty b.bootloader_dir)) [
    | inl g ↦ rw (h, g) refl
    | inr g ↦ rw (h, g) refl
  ]
]

-- The files of the scratch directory are gone, whatever came of the rest.
pub cleared-none :
    (dir path : Str) (x : Result Str × DiskState)
    → is_under dir path ≡ true
    → lookup path (disk_of (cleared dir x)).files ≡ none
cleared-none dir path (r, d) h = lookup-drop_under dir path d.files h

after_checks :
    (b : IsoBuilder) (ks hostname dir path : Str) (m : Machine) (d : DiskState)
    (x : Result (Unit {0}) × DiskState)
    → Keeps d x
    → scratch_dir b hostname m d ≡ (ok dir, d)
    → is_under dir path ≡ true
    → lookup path d.files ≡ none
    → lookup path
        (disk_of (
          next
            (λ _. λ m d.
              next
                (λ dir. λ m d. cleared dir (build_in b ks hostname dir m d))
                m
                (scratch_dir b hostname m d))
            m
            x)).files
      ≡ none
after_checks b ks hostname dir path m d (err e, after) keeps made under fresh = rw keeps fresh
after_checks b ks hostname dir path m d (ok u, after) keeps made under fresh =
    rw (keeps, made) (cleared-none dir path (build_in b ks hostname dir m d) under)

-- Build leaves no file in its scratch directory, on every path: whether a check refuses, the copy, a
-- write or the tool fails, or the ISO is built, none of the files in the directory that os.MkdirTemp
-- made, which was new, is left.
pub build_iso_file-cleans :
    (m : Machine) (b : IsoBuilder) (ks hostname dir path : Str) (d : DiskState)
    → m.mkdir_temp d.files (work_root m b.work_dir) (lit "proxctl-iso-" ++ hostname ++ lit "-")
      ≡ ok dir
    → is_under dir path ≡ true
    → lookup path d.files ≡ none
    → lookup path (disk_of (build_iso_file b ks hostname m d)).files ≡ none
unfolding build_iso_file scratch_dir
build_iso_file-cleans m b ks hostname dir path d made under fresh =
    after_checks b ks hostname dir path m d (check_builder b m d) (check_builder-Keeps b m d)
      (rw made refl) under fresh

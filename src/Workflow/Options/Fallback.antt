-- ===== src/Workflow/Options/Fallback.antt =====
-- The storage of disks that name none, in pkg/config/validators.go and pkg/workflow/single_vm.go.
use proxclt.Base.{true, ℕ, ◌+◌, Str, lit, is_empty, List, [], ◌∷◌, All, some, ok, ◌≡◌, refl}
use proxclt.Config.Model.{Disk, StorageClasses}
use proxclt.Config.Validators.{check_disk_refs}
use proxclt.Workflow.Options.{resolve_storage, class_of}

abbrev pub Unplaced : Disk → Type 0
Unplaced d = (is_empty d.storage ≡ true) × (is_empty d.storage_class ≡ true)

abbrev pub OnLocalLvm : StorageClasses → Disk → Type 0
OnLocalLvm sc d = (resolve_storage (some sc) d).0 ≡ lit "local-lvm"

-- Disks that name neither a storage nor a class pass the validation of the references, whatever the
-- catalogue is, and are then placed on local-lvm.
pub fallback-reached :
    (sc : StorageClasses) (name : Str) (i : ℕ) (ds : List Disk)
    → All Unplaced ds
    → (check_disk_refs sc name i ds ≡ ok tt) × All (OnLocalLvm sc) ds
unfolding check_disk_refs resolve_storage class_of
fallback-reached sc name i [] h = (refl, tt)
fallback-reached sc name i (d ∷ ds) h =
    let later = fallback-reached sc name (i + 1) ds h.1 in
    (rw h.0.1 later.0, (rw (h.0.0, h.0.1) refl, later.1))

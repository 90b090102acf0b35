-- ===== src/Workflow/Plan/Order.antt =====
-- The order of the changes of a plan.
use proxclt.Base.{ℕ, ◌<◌, is_empty, false, Bool-cases, All, Pairs, ◌≡◌, ◌⊎◌, inl, inr, arith}
use proxclt.Workflow.Options.{SingleVm, Target}
use proxclt.Workflow.Plan.{
  Kind, render_kickstart, build_iso, upload_iso, verify_kickstart_iso, create_vm,
  attach_kickstart_iso, start_vm, unknown, Change, kickstart_storage, kickstart_changes,
  build_changes, changes, upload_change, verify_change, create_change, attach_change, start_change,
}

-- The stage of a change: the installation image, the machine, its drives, its start.
unfoldable pub stage : Kind → ℕ
stage render_kickstart = 0
stage build_iso = 1
stage upload_iso = 2
stage verify_kickstart_iso = 2
stage create_vm = 3
stage attach_kickstart_iso = 4
stage start_vm = 5
stage (unknown k) = 6

abbrev pub Before : Change → Change → Type 0
Before a b = stage a.kind < stage b.kind

-- A change is of a kind that Apply knows, and one that needs the kickstart storage has it.
abbrev pub Runnable : Target → Change → Type 0
Runnable t c =
    (stage c.kind < 6)
    × ((stage c.kind ≡ 2) ⊎ (stage c.kind ≡ 4) → is_empty (kickstart_storage t.iso) ≡ false)

-- The changes of a plan stand in the order of their stages, each at most once: rendering,
-- building, upload or verification, creation, attachment, start.
pub changes-Ordered : (w : SingleVm) (t : Target) → Pairs Before (changes w t)
unfolding changes kickstart_changes build_changes upload_change verify_change create_change
    attach_change start_change stage
changes-Ordered w t = elim (Bool-cases w.skip_kickstart_build) [
  | inl h ↦ elim (Bool-cases (is_empty (kickstart_storage t.iso))) [
    | inl e ↦ rw (h, e) (ground arith)
    | inr e ↦ rw (h, e) (ground arith)
  ]
  | inr h ↦ elim (Bool-cases (is_empty (kickstart_storage t.iso))) [
    | inl e ↦ rw (h, e) (ground arith)
    | inr e ↦ rw (h, e) (ground arith)
  ]
]

-- Every change of a plan is of a kind that Apply executes, and those that upload, verify or attach
-- the kickstart ISO are planned only where a storage for it is configured.
pub changes-Runnable : (w : SingleVm) (t : Target) → All (Runnable t) (changes w t)
unfolding changes kickstart_changes build_changes upload_change verify_change create_change
    attach_change start_change stage
changes-Runnable w t = elim (Bool-cases w.skip_kickstart_build) [
  | inl h ↦ elim (Bool-cases (is_empty (kickstart_storage t.iso))) [
    | inl e ↦ rw (h, e) (ground arith)
    | inr e ↦ rw (h, e) (ground arith)
  ]
  | inr h ↦ elim (Bool-cases (is_empty (kickstart_storage t.iso))) [
    | inl e ↦ rw (h, e) (ground arith)
    | inr e ↦ rw (h, e) (ground arith)
  ]
]

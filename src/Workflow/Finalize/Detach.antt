-- ===== src/Workflow/Finalize/Detach.antt =====
-- FinalizeSingle and the wait for SSH of pkg/workflow/finalize.go.
use proxclt.Base.{
  ℕ, zero, suc, ◌≤◌, ◌<◌, Str, lit, true, Option, none, some, List, [], ◌∷◌, Error, ok, ◌≡◌, refl,
  arith,
}
use proxclt.World.{Event, probed, slept, Host}
use proxclt.Proxmox.Accepted.{Accepts, configured, disk_boot, ejected-Accepts, disk_boot-Accepts}
use proxclt.Workflow.Finalize.{ssh_loop, finalize_single}

-- Where the API accepts every request that changes something, with a task or with none, and each task
-- that is waited for ends well before the context does, FinalizeSingle succeeds and does exactly
-- this: it takes the kickstart ISO off ide3, then the install ISO off ide2, then makes the disk the
-- only boot device, and polls the task of each of the three, where it has one, before the next.
pub finalize_single-Accepts :
    (node : Str) (vmid : ℕ) (host : Host) (hist : List Event) (acc : Accepts host)
    → finalize_single true node vmid host hist ≡ (
      ok tt,
      disk_boot acc node vmid (
          configured acc node vmid
            ((lit "delete", lit "ide2") ∷ [])
            (configured acc node vmid ((lit "delete", lit "ide3") ∷ []) hist)),
    )
unfolding finalize_single
finalize_single-Accepts node vmid host hist acc =
    rw
      (
        (ejected-Accepts node vmid host hist acc).1,
        (ejected-Accepts node vmid host _ acc).0,
        disk_boot-Accepts node vmid host _ acc,
      )
      refl

-- The history after `k` probes that failed.
unfoldable pub probes : ℕ → Str → ℕ → List Event → List Event
probes zero ip port hist = hist
probes (suc k) ip port hist = probes k ip port (slept ∷ probed ip port ∷ hist)

-- The next `k` probes fail.
unfoldable pub Unreachable : ℕ → Host → Str → ℕ → List Event → Type 0
Unreachable zero host ip port hist = Unit
Unreachable (suc k) host ip port hist =
    ((e : Error) × (host.probe (probed ip port ∷ hist) ≡ some e))
    × Unreachable k host ip port (slept ∷ probed ip port ∷ hist)

-- The wait ends with success at the first probe that succeeds, where the deadline and the context
-- leave time for it: after `k` failures, one more probe.
pub ssh_loop-reaches :
    (k n p : ℕ) (ip : Str) (port : ℕ) (last : Option Error) (host : Host) (hist : List Event)
    → k < n
    → k ≤ p
    → Unreachable k host ip port hist
    → host.probe (probed ip port ∷ probes k ip port hist) ≡ none
    → ssh_loop n p ip port last host hist ≡ (ok tt, probed ip port ∷ probes k ip port hist)
unfolding ssh_loop Unreachable probes
ssh_loop-reaches k zero p ip port last host hist kn kp un up = absurd (omega arith)
ssh_loop-reaches zero (suc n) zero ip port last host hist kn kp un up = rw up refl
ssh_loop-reaches zero (suc n) (suc p) ip port last host hist kn kp un up = rw up refl
ssh_loop-reaches (suc k) (suc n) zero ip port last host hist kn kp un up = absurd (omega arith)
ssh_loop-reaches (suc k) (suc n) (suc p) ip port last host hist kn kp ((e, q), un) up =
    rw q (ssh_loop-reaches k n p ip port (some e) host _ (omega arith) (omega arith) un up)

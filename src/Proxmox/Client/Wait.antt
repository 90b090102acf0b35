-- ===== src/Proxmox/Client/Wait.antt =====
-- The wait for a task in pkg/proxmox/client.go.
use proxclt.Base.{ℕ, zero, suc, ◌≤◌, Str, true, false, List, ◌∷◌, ok, err, ◌≡◌, refl, arith}
use proxclt.World.{get, no_body, Event, request, slept, Host}
use proxclt.Proxmox.Client.{TaskStatus, task_path, finished, exit_of, poll, wait_from}

-- The history after `k` polls that found the task running.
unfoldable pub polled : ℕ → Str → Str → List Event → List Event
polled zero node upid hist = hist
polled (suc k) node upid hist =
    polled k node upid
      (slept ∷ request (record { method = get; path = task_path node upid; body = no_body }) ∷ hist)

-- The answers to the next `k` polls all report a running task.
unfoldable pub StillRunning : ℕ → Host → Str → Str → List Event → Type 0
unfolding polled
StillRunning zero host node upid hist = Unit
StillRunning (suc k) host node upid hist =
    ((st : TaskStatus) × ((finished st ≡ false)
        × (poll node upid host hist ≡ (
          ok st,
          request (record { method = get; path = task_path node upid; body = no_body }) ∷ hist,
        ))))
    × StillRunning k host node upid (polled 1 node upid hist)

-- Once a poll finds the task finished, the wait is over: after `k` polls of a running task the next
-- one decides, if the context lasts that long, and the result is that of the exit status. The polls
-- in between are one GET and one wait each.
pub wait_from-finishes :
    (k n : ℕ) (node upid : Str) (host : Host) (hist last : List Event) (st : TaskStatus)
    → k ≤ n
    → StillRunning k host node upid hist
    → poll node upid host (polled k node upid hist) ≡ (ok st, last)
    → finished st ≡ true
    → wait_from n node upid host hist ≡ (exit_of upid st, last)
unfolding wait_from StillRunning polled
wait_from-finishes zero zero node upid host hist last st le running p f = rw (p, f) refl
wait_from-finishes zero (suc n) node upid host hist last st le running p f = rw (p, f) refl
wait_from-finishes (suc k) zero node upid host hist last st le running p f = absurd (omega arith)
wait_from-finishes (suc k) (suc n) node upid host hist last st le ((now, (live, q)), running) p f =
    rw (q, live) (wait_from-finishes k n node upid host _ last st (omega arith) running p f)

-- A task that is still running when the context ends makes the wait return the error of the context,
-- after one poll more than the timers that fired: the wait never outlives its context.
pub wait_from-gives_up :
    (n : ℕ) (node upid : Str) (host : Host) (hist : List Event)
    → StillRunning (suc n) host node upid hist
    → wait_from n node upid host hist ≡ (
      err host.canceled,
      request (record { method = get; path = task_path node upid; body = no_body })
          ∷ polled n node upid hist,
    )
unfolding wait_from StillRunning polled
wait_from-gives_up zero node upid host hist ((now, (live, q)), _) = rw (q, live) refl
wait_from-gives_up (suc n) node upid host hist ((now, (live, q)), running) =
    rw (q, live) (wait_from-gives_up n node upid host _ running)

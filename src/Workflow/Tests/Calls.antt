-- ===== src/Workflow/Tests/Calls.antt =====
-- The theorems on the calls of pkg/proxmox and on the finalize step, at small inputs.
use proxclt.Base.{
  lit, concat, is_empty, str_eq, true, false, none, [], ◌∷◌, ok, err, ◌≡◌, refl, arith,
}
use proxclt.Config.Validate.{value_at}
use proxclt.World.{Event, request, probed, get, no_body}
use proxclt.Proxmox.Client.{
  answer, data_of, call, poll, as_task, as_upid, task_fields, task_path, TaskStatus, finished,
  exit_of, wait_from,
}
use proxclt.Proxmox.Client.Wait.{polled, StillRunning, wait_from-finishes, wait_from-gives_up}
use proxclt.Proxmox.Accepted.{configured, disk_boot}
use proxclt.Workflow.Finalize.{ssh_loop, finalize_single}
use proxclt.Workflow.Finalize.Detach.{
  probes, Unreachable, finalize_single-Accepts, ssh_loop-reaches,
}
use proxclt.Workflow.Tests.Hosts.{serving, serving-Accepts, busy, stuck, waited}

given : (is_empty (lit "i") ≡ false) × (is_empty (lit "k") ≡ false)
unfolding is_empty lit
given = (refl, refl)

finalize_single-Accepts_example : finalize_single true (lit "pve") 100 serving [] ≡ (
  ok tt,
  disk_boot serving-Accepts (lit "pve") 100 (
      configured serving-Accepts
        (lit "pve")
        100
        ((lit "delete", lit "ide2") ∷ [])
        (configured serving-Accepts (lit "pve") 100 ((lit "delete", lit "ide3") ∷ []) [])),
)
finalize_single-Accepts_example = finalize_single-Accepts (lit "pve") 100 serving [] serving-Accepts

escaped_test :
    task_path (lit "pve") (lit "UPID:pve:a@pve!t:")
    ≡ lit "/nodes/pve/tasks/UPID:pve:a@pve%21t:/status"
unfolding task_path concat lit
escaped_test = refl

refused_once : Unreachable 1 busy (lit "h") 22 []
unfolding Unreachable waited
refused_once = ((_, refl), tt)

opened : busy.probe (probed (lit "h") 22 ∷ probes 1 (lit "h") 22 []) ≡ none
unfolding probes waited
opened = refl

ssh_loop-reaches_example :
    ssh_loop 3 2 (lit "h") 22 none busy [] ≡ (ok tt, probed (lit "h") 22 ∷ probes 1 (lit "h") 22 [])
ssh_loop-reaches_example =
    ssh_loop-reaches 1 3 2 (lit "h") 22 none busy [] (omega arith) (omega arith) refused_once opened

abbrev running : TaskStatus
running = record { status = lit "running"; exit_status = [] }

abbrev stopped : TaskStatus
stopped = record { status = lit "stopped"; exit_status = lit "OK" }

abbrev polled_event : Event
polled_event =
    request (record { method = get; path = task_path (lit "pve") (lit "u"); body = no_body })

run_once : StillRunning 1 busy (lit "pve") (lit "u") []
unfolding StillRunning poll call answer data_of as_task as_upid task_fields value_at finished waited
    lit str_eq is_empty task_path concat
run_once = ((running, (refl, refl)), tt)

done :
    poll (lit "pve") (lit "u") busy (polled 1 (lit "pve") (lit "u") [])
    ≡ (ok stopped, polled_event ∷ polled 1 (lit "pve") (lit "u") [])
unfolding polled poll call answer data_of as_task as_upid task_fields value_at waited lit str_eq
    is_empty task_path concat
done = refl

over : finished stopped ≡ true
unfolding finished lit str_eq is_empty
over = refl

wait_from-finishes_example :
    wait_from 2 (lit "pve") (lit "u") busy []
    ≡ (exit_of (lit "u") stopped, polled_event ∷ polled 1 (lit "pve") (lit "u") [])
wait_from-finishes_example =
    wait_from-finishes 1 2 (lit "pve") (lit "u") busy []
      (polled_event ∷ polled 1 (lit "pve") (lit "u") []) stopped (omega arith) run_once done over

runs_on : StillRunning 2 stuck (lit "pve") (lit "u") []
unfolding StillRunning polled poll call answer data_of as_task as_upid task_fields value_at finished
    lit str_eq is_empty task_path concat
runs_on = ((running, (refl, refl)), ((running, (refl, refl)), tt))

wait_from-gives_up_example :
    wait_from 1 (lit "pve") (lit "u") stuck []
    ≡ (err stuck.canceled, polled_event ∷ polled 1 (lit "pve") (lit "u") [])
wait_from-gives_up_example = wait_from-gives_up 1 (lit "pve") (lit "u") stuck [] runs_on

-- ===== src/Workflow/Finalize.antt =====
-- pkg/workflow/finalize.go: the wait for SSH after an installation, and the detach of the ISOs.
pub mod Addresses
pub mod Detach
use mathlib.Core.List.{reverse}
use proxclt.Base.{
  str_leb, ℕ, zero, suc, ◌==◌, ltb, ◌+◌, ◌/◌, leb, Str, lit, itoa, str_eq, is_empty, Bool, true,
  false, not, ◌&&◌, if◌then◌else◌, Option, none, some, List, [], ◌∷◌, Error, errorf, wrapf, Result,
  ok, err,
}
use proxclt.Config.Model.{Dict, lookup, ProxmoxRef, Node}
use proxclt.World.{
  Event, probed, slept, printed, Host, Action, return, record_event, give_up, ◌>>=◌, ◌>>◌, within,
}
use proxclt.Proxmox.Boot.{eject_iso, set_boot_order}
use proxclt.Workflow.Options.{SingleVm, Target, resolve}

-- The entry with the least key among those that have an address.
unfoldable pub least : Option (Str × Str) → Dict Str → Option (Str × Str)
unfolding str_leb is_empty
least best [] = best
least none ((k, v) ∷ rest) = least (if is_empty v then none else some (k, v)) rest
least (some (j, u)) ((k, v) ∷ rest) =
    least (if is_empty v then some (j, u) else if str_leb j k then some (j, u) else some (k, v))
      rest

abbrev pub address_at : Str → Dict Str → Str
address_at k ips = elim (lookup k ips) [ none ↦ [] | some v ↦ v ]

unfoldable pub pick_in : Dict Str → List Str → Str × Str
unfolding least lookup is_empty
pick_in ips [] = elim (least none ips) [ none ↦ ([], []) | some e ↦ (e.1, e.0) ]
pick_in ips (k ∷ ks) =
    let later = pick_in ips ks in
    if is_empty (address_at k ips) then later else (address_at k ips, k)

-- pickFinalizeIP: the address to probe and the label of its slot.
unfoldable pub pick_finalize_ip : Dict Str → Str × Str
unfolding pick_in
pick_finalize_ip ips = pick_in ips (lit "management" ∷ lit "public" ∷ lit "private" ∷ [])

abbrev pub or_else : ℕ → ℕ → ℕ
or_else n default = if n == 0 then default else n

-- How a probe failed, before the deadline is seen to have passed.
abbrev pub last_error : Option Error → Error
last_error none = errorf "timeout after %s" []
last_error (some e) = e

-- One probe of the port, by nc or by the dialer.
abbrev pub probe : Str → ℕ → Action (Option Error)
probe ip port host hist = let asked = probed ip port ∷ hist in (ok (host.probe asked), asked)

-- The loop of waitForSSHUp, which the deadline ends after `n` more probes and the context after
-- `p` more timers.
unfoldable pub ssh_loop : ℕ → ℕ → Str → ℕ → Option Error → Action (Unit {0})
ssh_loop zero p ip port last =
    return (err (wrapf "finalize: ssh-up wait %s: %w" (ip ∷ itoa port ∷ []) (last_error last)))
ssh_loop (suc n) zero ip port last =
    probe ip port >>= λ failure. elim failure [ none ↦ return (ok tt) | some e ↦ give_up ]
ssh_loop (suc n) (suc p) ip port last = probe ip port >>= λ failure. elim failure [
  | none ↦ return (ok tt)
  | some e ↦ record_event slept >> ssh_loop n p ip port (some e)
]

unfoldable pub wait_for_ssh_up : Bool → ℕ → Str → Action (Unit {0})
unfolding ssh_loop
wait_for_ssh_up skip port ip host =
    if skip
    then return (ok tt) host
    else if is_empty ip
    then return (err (errorf "finalize: no IP available for SSH-up probe" [])) host
    else ssh_loop host.attempts host.patience ip port none host

unfoldable pub finalize_single : Bool → Str → ℕ → Action (Unit {0})
unfolding eject_iso set_boot_order
finalize_single has_client node vmid =
    if not has_client then return (err (errorf "finalize: Client not set" [])) else (do
      within "finalize: detach ide3 (kickstart): %w" [] (eject_iso node vmid (lit "ide3"))
      within "finalize: detach ide2 (install): %w" [] (eject_iso node vmid (lit "ide2"))
      within "finalize: reset boot order: %w" [] (set_boot_order node vmid (lit "scsi0")))

unfoldable pub finalize_at : SingleVm → Target → Str → Action (Unit {0})
unfolding wait_for_ssh_up finalize_single
finalize_at w t ip =
    if is_empty ip
    then return (
        err (
          errorf "finalize: node %q has no IPs configured (cannot probe SSH-up)"
            (w.node_name ∷ [])))
    else (do
      record_event (printed "[finalize:%s] waiting for SSH-up" (w.node_name ∷ ip ∷ []))
      wait_for_ssh_up w.skip_ssh_wait (or_else w.ssh_port 22) ip
      record_event (printed "[finalize:%s] SSH-up" (w.node_name ∷ []))
      finalize_single w.has_client t.node.proxmox.node_name t.node.proxmox.vmid)

-- SingleVMWorkflow.Finalize
unfoldable pub finalize : SingleVm → Action (Unit {0})
unfolding resolve finalize_at pick_finalize_ip
finalize w = do
  t ← return (resolve w)
  if w.has_client
      then finalize_at w t (pick_finalize_ip t.node.ips).0
      else return (err (errorf "finalize: Client not set" []))

-- ===== src/Root/Vm/Creation.antt =====
-- `vm create` without --skip-kickstart-build.
use mathlib.Core.Path.{subst}
use proxclt.Base.{
  sym, ◌∙◌, Str, Bool, true, false, ◌≡◌, ◌≢◌, refl, ap, not, ◌&&◌, if◌then◌else◌, List, [], ◌∷◌,
  ◌++◌, ok, ok-injective,
}
use proxclt.World.{Event, Host, Action, return, outcome, ◌>>=◌, ◌>>◌, proceed-ok, >>=-ne-ok, within}
use proxclt.Workflow.Options.{SingleVm, Target, resolve}
use proxclt.Workflow.Plan.{
  Change, plan, changes, check_absent, kickstart_changes, build_changes, build_iso,
}
use proxclt.Workflow.Apply.{
  Locals, clean_up, apply, apply_all, apply_change, execute, apply_build, up, warning, verify,
}
use proxclt.Workflow.Finalize.{finalize}
use proxclt.Root.Process.{Process, load_env_manifest, load_proxmox_client}
use proxclt.Root.Vm.{creation, vm_create}

module _ (w : SingleVm) (no_builder : w.has_builder ≡ false) (real : w.dry_run ≡ false) where
  -- The change that builds the ISO fails.
  build-fails :
      (t : Target) (l : Locals) (ch : Change) (host : Host) (hist : List Event) {m : Locals}
      → ch.kind ≡ build_iso
      → outcome (apply_change w t l ch host hist) ≢ ok m
  unfolding apply_change execute apply_build
  build-fails t l ch host hist k h = let bad = rw (real, k, no_builder) at h in cc bad

  changes-fail :
      (t : Target) (l : Locals) (first second : Change) (rest : List Change) (host : Host)
      (hist : List Event) {m : Locals}
      → second.kind ≡ build_iso
      → outcome (apply_all w t l (first ∷ second ∷ rest) host hist) ≢ ok m
  unfolding apply_all
  changes-fail t l first second rest host hist k =
      >>=-ne-ok (apply_change w t l first) (λ m. apply_all w t m (second ∷ rest)) host hist
        (λ m next e.
          >>=-ne-ok (apply_change w t m second) (λ n. apply_all w t n rest) host next
            (λ n later f _. build-fails t m second host next k (ap outcome f)))

  apply-fails :
      (t : Target) (first second : Change) (rest : List Change) (host : Host) (hist : List Event)
      → resolve w ≡ ok t
      → second.kind ≡ build_iso
      → outcome (apply w (first ∷ second ∷ rest) host hist) ≢ ok tt
  unfolding apply
  apply-fails t first second rest host hist found k = rw found (
      >>=-ne-ok (apply_all w t (record { rendered_ks = []; iso_path = [] }) (first ∷ second ∷ rest))
        clean_up host hist
        (λ l next e _.
          changes-fail t (record { rendered_ks = []; iso_path = [] }) first second rest host hist k
            (ap outcome e)))

  plan-changes :
      (host : Host) (hist next : List Event) (chs : List Change)
      → plan w host hist ≡ (ok chs, next)
      → (t : Target) × (resolve w ≡ ok t) × (changes w t ≡ chs)
  unfolding plan
  plan-changes host hist next chs h =
      let (t, n1, e, g) =
        proceed-ok (λ t. check_absent w t >> return (ok (changes w t))) host (resolve w, hist) h in
      let (u, n2, f, last) =
        proceed-ok (λ u. return (ok (changes w t))) host (check_absent w t host n1) g in
      (t, ap outcome e, ok-injective (ap outcome last))

  -- What Up does after the changes.
  abbrev after_apply : Action (Unit {0})
  after_apply = do
    warning (verify w)
    if not w.skip_finalize && not w.dry_run
        then within "finalize: %w" [] (finalize w)
        else return (ok tt)

  changes-build :
      (t : Target) (skip : Bool) (r q : List Change)
      → skip ≡ false
      → (first : Change) × (second : Change) × (rest : List Change) × (second.kind ≡ build_iso)
        × ((kickstart_changes skip w.node_name t ++ r) ++ q ≡ first ∷ second ∷ rest)
  unfolding kickstart_changes build_changes
  changes-build t true r q h = absurd (cc h)
  changes-build t false r q h = (_, _, _, refl, refl)

  up-fails :
      w.skip_kickstart_build ≡ false
      → (host : Host) (hist : List Event) → outcome (up w host hist) ≢ ok tt
  unfolding up changes
  up-fails build host hist =
      >>=-ne-ok (plan w) (λ chs. apply w chs >> after_apply) host hist
        (λ chs next e.
          let (t, found, planned) = plan-changes host hist next chs e in
          let (first, second, rest, kind, listed) =
            changes-build t w.skip_kickstart_build _ _ build in
          >>=-ne-ok (apply w chs) (λ u. after_apply) host next
            (λ u later f _. apply-fails t first second rest host next found kind (
              subst (λ z. outcome (apply w z host next) ≡ ok tt) (sym planned ∙ listed)
                (ap outcome f))))

-- Without --skip-kickstart-build, `vm create` succeeds for no node, whatever the manifest, the process and
-- the answers of the server: its workflow has no ISO builder, and its changes include the build of an ISO.
pub vm_create-fails :
    (p : Process) (name : Str) (host : Host) (hist : List Event)
    → outcome (vm_create p name false host hist) ≢ ok tt
unfolding vm_create
vm_create-fails p name host hist =
    >>=-ne-ok (return (load_env_manifest p []))
      (λ env.
        return (load_proxmox_client p)
        >>= (λ client. return p.renderer >> up (creation env name false)))
      host hist
      (λ env h1 e1.
        >>=-ne-ok (return (load_proxmox_client p))
          (λ client. return p.renderer >> up (creation env name false)) host h1
          (λ client h2 e2.
            >>=-ne-ok (return p.renderer) (λ u. up (creation env name false)) host h2
              (λ u h3 e3. up-fails (creation env name false) refl refl refl host h3)))

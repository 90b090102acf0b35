-- ===== src/Workflow/Multi/FailFast.antt =====
-- The pool of applyPlan in pkg/workflow/multi_node.go where the first error cancels the others: the
-- goroutines of an errgroup.
use mathlib.Core.List.Perm
use mathlib.Core.List.{Perm, Mem, forall_mem-cons, not-mem-nil, perm_middle, mem-cons_self}
use mathlib.Core.Path.{subst}
use proxclt.Base.{
  ℕ, ◌<◌, ◌≤◌, Str, Bool, true, false, ◌||◌, Option, none, some, List, [], ◌∷◌, ◌++◌, append-nil,
  length, length-append, Error, errorf, wrapf, Result, ok, err, ◌≡◌, ◌↔◌, refl, sym, ap, ◌∙◌, arith,
}
use proxclt.Workflow.Multi.Concurrency.{middle, is_ok, is_ok_iff}

-- The goroutines that have not got the semaphore, those that hold it, those that applied their node,
-- those that gave up, the error of the group, and whether the context of the caller is done.
pub record Group : Type 0 where
  pub queued : List Str
  pub holding : List Str
  pub applied : List Str
  pub skipped : List Str
  pub first : Option Error
  pub interrupted : Bool

unfoldable pub group_of : List Str → Group
group_of names = record {
  queued = names;
  holding = [];
  applied = [];
  skipped = [];
  first = none;
  interrupted = false;
}

abbrev pub is_some : Option Error → Bool
is_some none = false
is_some (some e) = true

-- The context of the group is done once an error was returned, or with the context of the caller.
unfoldable pub context_done : Group → Bool
context_done g = is_some g.first || g.interrupted

-- What errgroup keeps when a goroutine returns: the first error.
unfoldable pub keep_first : Option Error → Option Error → Option Error
keep_first (some e) later = some e
keep_first none later = later

unfoldable pub returned : Str → Result (Unit {0}) → Option Error
returned name (ok u) = none
returned name (err e) = some (wrapf "%s: %w" (name ∷ []) e)

-- A goroutine gets the semaphore, or gives up with the error of the context; one that holds it
-- returns. `result` is what the apply of a node returns while the context lives; under a context
-- that is done it may return anything. The caller may cancel at any time.
pub data GroupStep (cap : ℕ) (result : Str → Result (Unit {0})) (g : Group) : Group → Type 0 where
  acquire :
      (before : List Str) (n : Str) (after : List Str)
      → g.queued ≡ before ++ n ∷ after
      → length g.holding < cap
      → GroupStep cap result g (record g { queued = before ++ after; holding = n ∷ g.holding })
  give_up :
      (before : List Str) (n : Str) (after : List Str)
      → g.queued ≡ before ++ n ∷ after
      → context_done g ≡ true
      → GroupStep cap result g (record g {
        queued = before ++ after;
        skipped = n ∷ g.skipped;
        first = keep_first g.first (some (errorf "context canceled" []));
      })
  release :
      (before : List Str) (n : Str) (after : List Str) (r : Result (Unit {0}))
      → g.holding ≡ before ++ n ∷ after
      → (context_done g ≡ false → r ≡ result n)
      → GroupStep cap result g (record g {
        holding = before ++ after;
        applied = n ∷ g.applied;
        first = keep_first g.first (returned n r);
      })
  interrupt : GroupStep cap result g (record g { interrupted = true })

pub data GroupRun (cap : ℕ) (result : Str → Result (Unit {0})) (g : Group) : Group → Type 0 where
  begin : GroupRun cap result g g
  then_run :
      {h k : Group} → GroupRun cap result g h → GroupStep cap result h k → GroupRun cap result g k

-- g.Wait
unfoldable pub error_or_nil : Option Error → Result (Unit {0})
error_or_nil none = ok tt
error_or_nil (some e) = err e

abbrev pub wait_group : Group → Result (Unit {0})
wait_group g = error_or_nil g.first

taken :
    (before : List Str) (n : Str) (after others : List Str)
    → Perm ((before ++ n ∷ after) ++ others) (n ∷ ((before ++ after) ++ others))
taken before n after others = Perm.append_right others (perm_middle before after)

module _ (cap : ℕ) (result : Str → Result (Unit {0})) (names : List Str) where
  -- The error is that of a node of the manifest whose apply fails by itself.
  abbrev pub Blames : Error → Type 0
  Blames e =
      (n : Str) × ((cause : Error) × (Mem n names
          × ((result n ≡ err cause) × (e ≡ wrapf "%s: %w" (n ∷ []) cause))))

  unfoldable Verdict : Option Error → List Str → List Str → Type 0
  Verdict none applied skipped =
      (skipped ≡ []) × ((n : Str) → Mem n applied → is_ok (result n) ≡ true)
  Verdict (some e) applied skipped = Blames e

  record Sound (g : Group) : Type 0 where
    bounded : length g.holding ≤ cap
    whole : Perm ((g.queued ++ g.holding) ++ (g.applied ++ g.skipped)) names
    verdict : g.interrupted ≡ false → Verdict g.first g.applied g.skipped

  give_up-Verdict :
      (first : Option Error) (late : Error) (n : Str) (applied skipped : List Str)
      → is_some first || false ≡ true
      → Verdict first applied skipped
      → Verdict (keep_first first (some late)) applied (n ∷ skipped)
  unfolding Verdict keep_first
  give_up-Verdict none late n applied skipped h v = cc
  give_up-Verdict (some e) late n applied skipped h v = v

  release-Verdict :
      (first : Option Error) (n : Str) (r : Result (Unit {0})) (applied skipped : List Str)
      → Mem n names
      → (is_some first || false ≡ false → r ≡ result n)
      → Verdict first applied skipped
      → Verdict (keep_first first (returned n r)) (n ∷ applied) skipped
  unfolding Verdict keep_first returned
  release-Verdict none n (ok u) applied skipped m own v = (
    v.0,
    (forall_mem-cons {p = λ x. is_ok (result x) ≡ true} (λ x. hlevel) {a = n} {l = applied}).1
        ((is_ok_iff (result n)).1 (sym (own refl)), v.1),
  )
  release-Verdict none n (err e) applied skipped m own v = (n, (e, (m, (sym (own refl), refl))))
  release-Verdict (some e) n r applied skipped m own v = v

  group_of-Sound : Sound (group_of names)
  unfolding group_of Verdict
  group_of-Sound = record {
    bounded = omega arith;
    whole = rw (append-nil, append-nil) (Perm.refl names);
    verdict = λ _. (refl, λ n m. absurd (not-mem-nil m));
  }

  GroupStep-Sound : (g h : Group) → Sound g → GroupStep cap result g h → Sound h
  unfolding context_done
  GroupStep-Sound g _ s (acquire before n after q room) = record {
    bounded = omega arith;
    whole =
        Perm.trans
          (Perm.append_right (g.applied ++ g.skipped) (
            Perm.trans (perm_middle (before ++ after) g.holding)
              (Perm.symm (taken before n after g.holding))))
          (subst (λ ws. Perm ((ws ++ g.holding) ++ (g.applied ++ g.skipped)) names) q s.whole);
    verdict = s.verdict;
  }
  GroupStep-Sound g _ s (give_up before n after q done) = record {
    bounded = s.bounded;
    whole =
        let rest = (before ++ after) ++ g.holding in
        Perm.trans (Perm.append_left rest (perm_middle g.applied g.skipped)) (
          Perm.trans (perm_middle rest (g.applied ++ g.skipped)) (
            Perm.trans
              (Perm.append_right (g.applied ++ g.skipped)
                (Perm.symm (taken before n after g.holding)))
              (subst (λ ws. Perm ((ws ++ g.holding) ++ (g.applied ++ g.skipped)) names) q
                s.whole)));
    verdict = λ calm.
        give_up-Verdict g.first (errorf "context canceled" []) n g.applied g.skipped
          (rw calm at done) (s.verdict calm);
  }
  GroupStep-Sound g _ s (release before n after r e own) =
      let rest = g.queued ++ (before ++ after) in
      let one_more : Perm (n ∷ (rest ++ (g.applied ++ g.skipped))) names =
        Perm.trans
          (Perm.append_right (g.applied ++ g.skipped) (Perm.symm (middle n g.queued before after)))
          (subst (λ rs. Perm ((g.queued ++ rs) ++ (g.applied ++ g.skipped)) names) e s.whole) in
      record {
        bounded = omega (
          arith,
          length-append before after,
          length-append before (n ∷ after),
          ap length e,
          s.bounded,
        );
        whole = Perm.trans (perm_middle rest (g.applied ++ g.skipped)) one_more;
        verdict = λ calm.
            release-Verdict g.first n r g.applied g.skipped
              ((Perm.mem_iff one_more).0 mem-cons_self) (rw calm at own) (s.verdict calm);
      }
  GroupStep-Sound g _ s interrupt = record {
    bounded = s.bounded;
    whole = s.whole;
    verdict = λ calm. cc;
  }

  GroupRun-Sound : (g : Group) → GroupRun cap result (group_of names) g → Sound g
  GroupRun-Sound _ begin = group_of-Sound
  GroupRun-Sound _ (then_run r s) = GroupStep-Sound _ _ (GroupRun-Sound _ r) s

  only_applied :
      {applied skipped : List Str}
      → Perm (applied ++ skipped) names
      → skipped ≡ []
      → {n : Str} → Mem n names
      → Mem n applied
  only_applied {applied} all empty {n} m =
      subst (Mem n) (ap (λ s. applied ++ s) empty ∙ append-nil applied) ((Perm.mem_iff all).1 m)

  verdict-outcome :
      (first : Option Error) (applied skipped : List Str)
      → Perm (applied ++ skipped) names
      → Verdict first applied skipped
      → ((error_or_nil first ≡ ok tt) ↔ ((n : Str) → Mem n names → result n ≡ ok tt))
        × ((e : Error) → error_or_nil first ≡ err e → Blames e)
  unfolding Verdict error_or_nil
  verdict-outcome none applied skipped all v =
      ((λ _ n m. (is_ok_iff (result n)).0 (v.1 n (only_applied all v.0 m)), λ _. refl), λ e h. cc)
  verdict-outcome (some e) applied skipped all (n, (cause, (m, (fails, says)))) =
      ((λ h. cc, λ h. cc (h n m)), λ e' h. (n, (cause, (m, (fails, cc)))))

  -- When every goroutine of the group has returned and the caller has not cancelled, each node was
  -- applied once or given up once, Wait returns nil exactly if the apply of every node succeeds by
  -- itself, and an error is that of a node of the manifest that fails by itself: the error of the
  -- cancelled context, or one that a cancelled apply returns, never takes its place.
  pub group-reports :
      (g : Group)
      → GroupRun cap result (group_of names) g
      → g.queued ≡ []
      → g.holding ≡ []
      → g.interrupted ≡ false
      → Perm (g.applied ++ g.skipped) names
        × (((wait_group g ≡ ok tt) ↔ ((n : Str) → Mem n names → result n ≡ ok tt))
            × ((e : Error) → wait_group g ≡ err e → Blames e))
  group-reports g r q h calm =
      let s = GroupRun-Sound g r in
      let all : Perm (g.applied ++ g.skipped) names = rw (q, h) at s.whole in
      (all, verdict-outcome g.first g.applied g.skipped all (s.verdict calm))

  -- At no time do more goroutines hold the semaphore than the limit, the caller's cancellation
  -- included.
  pub group-bounded : (g : Group) → GroupRun cap result (group_of names) g → length g.holding ≤ cap
  group-bounded g r = (GroupRun-Sound g r).bounded

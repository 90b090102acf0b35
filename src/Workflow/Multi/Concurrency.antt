-- ===== src/Workflow/Multi/Concurrency.antt =====
-- The pool of applyPlan in pkg/workflow/multi_node.go, whatever the order in which its goroutines end.
use mathlib.Core.List.Perm
use mathlib.Core.List.{Perm, Mem, forall_mem-cons, not-mem-nil, perm_middle}
use mathlib.Core.Path.{subst}
use proxclt.Base.{
  ℕ, suc, ◌+◌, ◌*◌, ◌<◌, ◌≤◌, Str, Bool, true, false, List, [], ◌∷◌, ◌++◌, append_assoc, append-nil,
  length, length-append, Error, Result, ok, err, joined, joined-ok, ◌≡◌, ◌↔◌, ◌⊎◌, inl, inr, refl,
  sym, ap, ◌∙◌, arith,
}
use proxclt.Workflow.Multi.{
  MultiNode, max_concurrency_of, Pool, pool_of, Step, launch, finish, Reaches, start, then_step,
  failure_at,
}

pub middle :
    (n : Str) (ws before after : List Str)
    → Perm (ws ++ (before ++ n ∷ after)) (n ∷ (ws ++ (before ++ after)))
middle n ws before after =
    subst (λ x. Perm x (n ∷ (ws ++ (before ++ after)))) (append_assoc ws before (n ∷ after))
      (subst (λ y. Perm ((ws ++ before) ++ n ∷ after) (n ∷ y)) (append_assoc ws before after)
        (perm_middle (ws ++ before) after))

abbrev pub is_ok : Result (Unit {0}) → Bool
is_ok (ok u) = true
is_ok (err e) = false

failure_at_iff : (n : Str) (r : Result (Unit {0})) → (failure_at n r ≡ []) ↔ (is_ok r ≡ true)
failure_at_iff n (ok u) = (λ _. refl, λ _. refl)
failure_at_iff n (err e) = (λ h. cc, λ h. cc)

pub is_ok_iff : (r : Result (Unit {0})) → (is_ok r ≡ true) ↔ (r ≡ ok tt)
is_ok_iff (ok u) = (λ _. refl, λ _. refl)
is_ok_iff (err e) = (λ h. cc, λ h. cc)

append-empty : (xs ys : List Error) → xs ++ ys ≡ [] → (xs ≡ []) × (ys ≡ [])
append-empty [] ys h = (refl, h)
append-empty (x ∷ xs) ys h = cc

joined_iff : (es : List Error) → (joined es ≡ ok tt) ↔ (es ≡ [])
unfolding joined
joined_iff es = (joined-ok es, λ h. rw h refl)

List-cases : (xs : List Str) → (xs ≡ []) ⊎ ((x : Str) × ((rest : List Str) × (xs ≡ x ∷ rest)))
List-cases [] = inl refl
List-cases (x ∷ xs) = inr (x, (xs, refl))

module _ (cap : ℕ) (result : Str → Result (Unit {0})) where
  -- The errors of the nodes that are done, the latest node first.
  unfoldable failures : List Str → List Error
  failures [] = []
  failures (n ∷ older) = failures older ++ failure_at n (result n)

  record Sound (names : List Str) (p : Pool) : Type 0 where
    bounded : length p.running ≤ cap
    whole : Perm ((p.waiting ++ p.running) ++ p.finished) names
    reported : p.errs ≡ failures p.finished

  pool_of-Sound : (names : List Str) → Sound names (pool_of names)
  unfolding pool_of failures
  pool_of-Sound names = record {
    bounded = omega arith;
    whole = rw (append-nil, append-nil) (Perm.refl names);
    reported = refl;
  }

  Step-Sound : (names : List Str) (p q : Pool) → Sound names p → Step cap result p q → Sound names q
  unfolding failures
  Step-Sound names p _ s (launch n rest w room) = record {
    bounded = omega arith;
    whole =
        Perm.trans (Perm.append_right p.finished (perm_middle rest p.running))
          (subst (λ ws. Perm ((ws ++ p.running) ++ p.finished) names) w s.whole);
    reported = s.reported;
  }
  Step-Sound names p _ s (finish before n after r) = record {
    bounded = omega (
      arith,
      length-append before after,
      length-append before (n ∷ after),
      ap length r,
      s.bounded,
    );
    whole = Perm.trans (perm_middle (p.waiting ++ (before ++ after)) p.finished) (
        Perm.trans (Perm.append_right p.finished (Perm.symm (middle n p.waiting before after)))
          (subst (λ rs. Perm ((p.waiting ++ rs) ++ p.finished) names) r s.whole));
    reported = ap (λ es. es ++ failure_at n (result n)) s.reported;
  }

  Reaches-Sound :
      (names : List Str) (q : Pool) → Reaches cap result (pool_of names) q → Sound names q
  Reaches-Sound names _ start = pool_of-Sound names
  Reaches-Sound names _ (then_step r s) = Step-Sound names _ _ (Reaches-Sound names _ r) s

  abbrev Succeeds : Str → Type 0
  Succeeds n = is_ok (result n) ≡ true

  failures_iff : (done : List Str) → (failures done ≡ []) ↔ ((n : Str) → Mem n done → Succeeds n)
  unfolding failures
  failures_iff [] = (λ _ n m. absurd (not-mem-nil m), λ _. refl)
  failures_iff (n ∷ older) =
      let split = forall_mem-cons {p = Succeeds} (λ n. hlevel) {a = n} {l = older} in
      (
        λ h.
            let parts = append-empty (failures older) (failure_at n (result n)) h in
            split.1 ((failure_at_iff n (result n)).0 parts.1, (failures_iff older).0 parts.0),
        λ all.
            rw
              (
                (failures_iff older).1 (split.0 all).1,
                (failure_at_iff n (result n)).1 (split.0 all).0,
              )
              refl,
      )

  -- When the loop has started every node and every goroutine has ended, each node of the manifest
  -- was applied exactly once, and the joined error is nil exactly if all of them succeeded.
  pub pool-reports :
      (names : List Str) (q : Pool)
      → Reaches cap result (pool_of names) q
      → q.waiting ≡ []
      → q.running ≡ []
      → Perm q.finished names
        × ((joined q.errs ≡ ok tt) ↔ ((n : Str) → Mem n names → result n ≡ ok tt))
  pool-reports names q r w e =
      let s = Reaches-Sound names q r in
      let all : Perm q.finished names = rw (w, e) at s.whole in
      let none_failed = failures_iff q.finished in
      (
        all,
        (
          λ h n m.
              (is_ok_iff (result n)).0 (
                none_failed.0 (sym s.reported ∙ (joined_iff q.errs).0 h) n
                  ((Perm.mem_iff all).1 m)),
          λ h. (joined_iff q.errs).1 (
              s.reported
              ∙ none_failed.1 (λ n m. (is_ok_iff (result n)).1 (h n ((Perm.mem_iff all).0 m)))),
        ),
      )

  some-Step :
      (p : Pool)
      → 0 < cap
      → ((p.waiting ≡ []) × (p.running ≡ [])) ⊎ ((q : Pool) × Step cap result p q)
  some-Step p pos = elim (List-cases p.running) [
    | inr (n, (after, r)) ↦ inr (_, finish [] n after r)
    | inl idle ↦ elim (List-cases p.waiting) [
      | inl empty ↦ inl (empty, idle)
      | inr (n, (rest, w)) ↦ inr (_, launch n rest w (rw idle pos))
    ]
  ]

  abbrev pub steps : {p q : Pool} → Reaches cap result p q → ℕ
  steps start = 0
  steps (then_step r s) = suc (steps r)

  abbrev measure : Pool → ℕ
  measure p = 2 * length p.waiting + length p.running

-- The pool never blocks: under the limit that applyPlan uses, whatever MaxConcurrency is set to, all
-- nodes are done or another step can be taken.
pub pool-progress :
    (m : MultiNode) (result : Str → Result (Unit {0})) (p : Pool)
    → ((p.waiting ≡ []) × (p.running ≡ [])) ⊎ ((q : Pool) × Step (max_concurrency_of m) result p q)
unfolding max_concurrency_of
pool-progress m result p = some-Step (max_concurrency_of m) result p (ground arith)

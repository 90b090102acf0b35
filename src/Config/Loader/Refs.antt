-- ===== src/Config/Loader/Refs.antt =====
-- resolveRefs of pkg/config/loader.go.
use proxclt.Base.{
  ℕ, ◌+◌, Str, String, str_eq_iff, is_empty, false, Bool-cases, if◌then◌else◌, Option, none, some,
  List, [], ◌∷◌, All, Pairs, Result, ok, err, ◌>>=◌, wrap, ok-injective, ◌≡◌, ◌≢◌, inl, inr, refl,
  sym, ap, ◌∙◌, arith,
}
use mathlib.Core.Path.{subst}
use proxclt.Config.Model.{Ref, EnvSpec}
use proxclt.Config.Validators.{has_name}
use proxclt.Config.Loader.{
  Resolving, Decoders, locate, read_at, resolve_ref, resolve_at, resolve_all, resolve_refs,
}

abbrev pub Distinct : List Str → Type 0
Distinct = Pairs (λ p q. p ≢ q)

not-has_name : (k : Str) (ps : List Str) → has_name k ps ≡ false → All (λ q. k ≢ q) ps
unfolding has_name
not-has_name k [] h = tt
not-has_name k (q ∷ ps) h = (λ e. ground (arith, str_eq_iff q k), not-has_name k ps (ground arith))

bind-ok :
    {A B : Type 0} (m : Result A) (f : A → Result B) (b : B)
    → m >>= f ≡ ok b
    → (a : A) × ((m ≡ ok a) × (f a ≡ ok b))
bind-ok (ok a) f b h = (a, (refl, h))
bind-ok (err e) f b h = cc

wrap-ok :
    {A : Type 0} (s : String) (args : List Str) (m : Result A) (a : A)
    → wrap s args m ≡ ok a
    → m ≡ ok a
wrap-ok s args (ok b) a h = h
wrap-ok s args (err e) a h = cc

-- The path of a reference, on top of the paths before; a reference that names no file adds none.
unfoldable pub onto : Str → Str → List Str → List Str
onto base ref seen = if is_empty ref then seen else locate base ref ∷ seen

unfoldable pub onto_at : {A : Type 0} → Str → Option (Ref A) → List Str → List Str
onto_at base none seen = seen
onto_at base (some r) seen = onto base r.ref seen

unfoldable pub onto_all : {A : Type 0} → Str → List (Ref A) → List Str → List Str
onto_all base [] seen = seen
onto_all base (r ∷ rest) seen = onto_all base rest (onto base r.ref seen)

-- The paths of all references of a manifest, the last one first, on top of the paths before.
unfoldable pub visited : Str → EnvSpec → List Str → List Str
visited base spec seen = onto_all base spec.databases (
    onto_at base spec.cluster (
      onto_at base spec.linux (
        onto base spec.storage_classes.ref
          (onto base spec.networks.ref (onto base spec.hypervisor.ref seen)))))

-- The paths seen after a call are these, and distinct.
abbrev Grown : {A : Type 0} → List Str → Resolving A → Type 0
Grown ps out = (out.1 ≡ ps) × Distinct out.1

module _ (read : Str → Result Str) (base : Str) where
  resolve_ref-Grown :
      {A : Type 0} (decode : Str → Result A) (r : Ref A) (seen : List Str) (out : Resolving (Ref A))
      → Distinct seen
      → resolve_ref read decode base r seen ≡ ok out
      → Grown (onto base r.ref seen) out
  unfolding resolve_ref onto
  resolve_ref-Grown decode r seen out d h = elim (Bool-cases (is_empty r.ref)) [
    | inl inlined ↦
        subst (Grown (onto base r.ref seen)) (ok-injective (rw inlined at h)) (rw inlined refl, d)
    | inr named ↦ elim (Bool-cases (has_name (locate base r.ref) seen)) [
      | inl again ↦ let bad = rw (named, again) at h in cc bad
      | inr new ↦
          let (t, (q, e)) =
            bind-ok (read_at read decode (locate base r.ref))
              (λ t. ok (record r { value = some t }, locate base r.ref ∷ seen)) out
              (rw (named, new) at h) in
          subst (Grown (onto base r.ref seen)) (ok-injective e)
            (rw named refl, (not-has_name (locate base r.ref) seen new, d))
    ]
  ]

  resolve_at-Grown :
      {A : Type 0} (decode : Str → Result A) (r : Option (Ref A)) (seen : List Str)
      (out : Resolving (Option (Ref A)))
      → Distinct seen
      → resolve_at read decode base r seen ≡ ok out
      → Grown (onto_at base r seen) out
  unfolding resolve_at onto_at
  resolve_at-Grown decode none seen out d h = subst (Grown seen) (ok-injective h) (refl, d)
  resolve_at-Grown decode (some r) seen out d h =
      let (p, (q, e)) =
        bind-ok (resolve_ref read decode base r seen) (λ p. ok (some p.0, p.1)) out h in
      subst (Grown (onto base r.ref seen)) (ok-injective e) (resolve_ref-Grown decode r seen p d q)

  resolve_all-Grown :
      {A : Type 0} (decode : Str → Result A) (i : ℕ) (rs : List (Ref A)) (seen : List Str)
      (out : Resolving (List (Ref A)))
      → Distinct seen
      → resolve_all read decode base i rs seen ≡ ok out
      → Grown (onto_all base rs seen) out
  unfolding resolve_all onto_all
  resolve_all-Grown decode i [] seen out d h = subst (Grown seen) (ok-injective h) (refl, d)
  resolve_all-Grown decode i (r ∷ rest) seen out d h =
      let (p, (q, e)) = bind-ok _ _ out h in
      let (p2, (q2, e2)) = bind-ok _ _ out e in
      let first = resolve_ref-Grown decode r seen p d (wrap-ok _ _ _ p q) in
      let later = resolve_all-Grown decode (i + 1) rest p.1 p2 first.1 q2 in
      subst (Grown (onto_all base rest (onto base r.ref seen))) (ok-injective e2)
        (later.0 ∙ ap (onto_all base rest) first.0, later.1)

  -- If the references of a manifest are resolved, no file was read twice: the paths of all its
  -- references, with the ones seen before, are distinct, and they are the ones seen afterwards. So a
  -- file that two references name is refused, as one that refers to the manifest is.
  pub resolve_refs-Distinct :
      (d : Decoders) (spec : EnvSpec) (seen : List Str) (out : Resolving EnvSpec)
      → Distinct seen
      → resolve_refs read d base spec seen ≡ ok out
      → (out.1 ≡ visited base spec seen) × Distinct (visited base spec seen)
  unfolding resolve_refs visited
  resolve_refs-Distinct d spec seen out fresh run =
      let (h, (qh, eh)) = bind-ok _ _ out run in
      let (n, (qn, en)) = bind-ok _ _ out eh in
      let (s, (qs, es)) = bind-ok _ _ out en in
      let (l, (ql, el)) = bind-ok _ _ out es in
      let (c, (qc, ec)) = bind-ok _ _ out el in
      let (db, (qd, ed)) = bind-ok _ _ out ec in
      let fh = resolve_ref-Grown d.hypervisor spec.hypervisor seen h fresh (wrap-ok _ _ _ h qh) in
      let fn = resolve_ref-Grown d.networks spec.networks h.1 n fh.1 (wrap-ok _ _ _ n qn) in
      let fs =
        resolve_ref-Grown d.storage_classes spec.storage_classes n.1 s fn.1 (wrap-ok _ _ _ s qs) in
      let fl = resolve_at-Grown d.linux spec.linux s.1 l fs.1 (wrap-ok _ _ _ l ql) in
      let fc = resolve_at-Grown d.cluster spec.cluster l.1 c fl.1 (wrap-ok _ _ _ c qc) in
      let fd = resolve_all-Grown d.database 0 spec.databases c.1 db fc.1 qd in
      let all : db.1 ≡ visited base spec seen =
        fd.0
        ∙ ap (onto_all base spec.databases) (
            fc.0
            ∙ ap (onto_at base spec.cluster) (
                fl.0
                ∙ ap (onto_at base spec.linux) (
                    fs.0
                    ∙ ap (onto base spec.storage_classes.ref)
                        (fn.0 ∙ ap (onto base spec.networks.ref) fh.0)))) in
      (sym (ap (λ o. o.1) (ok-injective ed)) ∙ all, subst Distinct all fd.1)

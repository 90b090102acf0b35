-- ===== src/Trace/Chain.antt =====
-- What VerifyChain of pkg/trace/schema.go accepts, and what the last hash of a trace pins down.
use mathlib.Core.Path.{subst}
use mathlib.Core.Option.{some-injective}
use proxclt.Base.{
  ℕ, zero, suc, ◌+◌, ◌<◌, Str, str_eq, str_eq_iff, is_empty_iff, none, some, Option-cases,
  Bool-cases, Result-cases, ==_iff, str_eq_refl, List, [], ◌∷◌, get_elem?, Error, ok, ◌≡◌, ◌↔◌,
  refl, inl, inr, arith,
}
use proxclt.Trace.Schema.{
  Record, Codec, compute_hash, validate, verify_from, verify_chain, current_schema_version,
}

-- The hash that the record at an index has to name as its predecessor's; `before` for the first.
abbrev pub hash_before : Str → List Record → ℕ → Str
hash_before before records zero = before
hash_before before [] (suc i) = []
hash_before before (r ∷ rest) (suc i) = hash_before r.hash rest i

module _ (c : Codec) where
  -- A record of the known version whose hash is the one of its contents.
  pub record IsSound (r : Record) : Type 0 where
    pub version : r.schema_version ≡ current_schema_version
    pub hashed : compute_hash c r ≡ ok r.hash

  -- Each record is sound and names the hash of the one before it, the first the empty string.
  abbrev pub IsChain : List Record → Type 0
  IsChain records =
      (i : ℕ) (r : Record)
      → get_elem? records i ≡ some r
      → IsSound r × (r.prev_hash ≡ hash_before [] records i)

  validate-IsSound : (r : Record) → validate c r ≡ none → IsSound r
  unfolding validate
  validate-IsSound r h = elim (Result-cases (compute_hash c r)) [
    | inl (a, e) ↦ ground (arith, str_eq_iff a r.hash)
    | inr (x, e) ↦ ground arith
  ]

  IsSound-validate : (r : Record) → IsSound r → validate c r ≡ none
  unfolding validate
  IsSound-validate r s = ground (arith, s.version, s.hashed, str_eq_refl r.hash)

  -- The chain by recursion from a record whose predecessor has the hash `before`.
  abbrev pub Linked : Str → List Record → Type 0
  Linked before [] = Unit
  Linked before (r ∷ rest) = IsSound r × (r.prev_hash ≡ before) × Linked r.hash rest

  verify_from-Linked :
      (i : ℕ) (before : Str) (records : List Record)
      → (i ≡ 0 → before ≡ [])
      → verify_from c i before records ≡ none
      → Linked before records
  unfolding verify_from
  verify_from-Linked i before [] first h = tt
  verify_from-Linked i before (r ∷ rest) first h = elim (Option-cases (validate c r)) [
    | inl good ↦ (
      validate-IsSound r good,
      ground (arith, is_empty_iff r.prev_hash, str_eq_iff r.prev_hash before, ==_iff i 0),
      verify_from-Linked (i + 1) r.hash rest (λ e. absurd (omega arith))
          (ground (arith, good, is_empty_iff r.prev_hash, str_eq_iff r.prev_hash before)),
    )
    | inr (e, bad) ↦ ground arith
  ]

  Linked-verify_from :
      (i : ℕ) (before : Str) (records : List Record)
      → (i ≡ 0 → before ≡ [])
      → Linked before records
      → verify_from c i before records ≡ none
  unfolding verify_from
  Linked-verify_from i before [] first l = refl
  Linked-verify_from i before (r ∷ rest) first l = ground (
    arith,
    IsSound-validate r l.0,
    is_empty_iff r.prev_hash,
    str_eq_iff r.prev_hash before,
    Linked-verify_from (i + 1) r.hash rest (λ (e : i + 1 ≡ 0). absurd (omega arith)) l.2,
  )

  Linked-at :
      (before : Str) (records : List Record)
      → Linked before records
      → (i : ℕ) (r : Record) → get_elem? records i ≡ some r
      → IsSound r × (r.prev_hash ≡ hash_before before records i)
  Linked-at before [] l i r h = cc
  Linked-at before (x ∷ rest) l zero r h =
      subst (λ y. IsSound y × (y.prev_hash ≡ before)) (some-injective x r h) (l.0, l.1)
  Linked-at before (x ∷ rest) l (suc i) r h = Linked-at x.hash rest l.2 i r h

  at-Linked :
      (before : Str) (records : List Record)
      → ((i : ℕ) (r : Record)
          → get_elem? records i ≡ some r
          → IsSound r × (r.prev_hash ≡ hash_before before records i))
      → Linked before records
  at-Linked before [] h = tt
  at-Linked before (x ∷ rest) h =
      ((h 0 x refl).0, (h 0 x refl).1, at-Linked x.hash rest (λ i r e. h (suc i) r e))

  pub verify_chain-Linked :
      (records : List Record) → (verify_chain c records ≡ none) ↔ Linked [] records
  unfolding verify_chain
  verify_chain-Linked records =
      (verify_from-Linked 0 [] records (λ _. refl), Linked-verify_from 0 [] records (λ _. refl))

  -- VerifyChain accepts a trace exactly when every record has the known version, carries the hash
  -- of its own contents, and names the hash of the record before it, the first the empty string.
  pub verify_chain_iff : (records : List Record) → (verify_chain c records ≡ none) ↔ IsChain records
  verify_chain_iff records = (
    λ h. Linked-at [] records ((verify_chain-Linked records).0 h),
    λ h. (verify_chain-Linked records).1 (at-Linked [] records h),
  )

  -- The record at index `i` is the first that does not continue the chain.
  pub record BrokenAt (before : Str) (records : List Record) (i : ℕ) : Type 0 where
    pub culprit : Record
    pub at : get_elem? records i ≡ some culprit
    pub broken : ¬ (IsSound culprit × (culprit.prev_hash ≡ hash_before before records i))
    pub earlier :
        (j : ℕ) (r : Record)
        → j < i
        → get_elem? records j ≡ some r
        → IsSound r × (r.prev_hash ≡ hash_before before records j)

  BrokenAt-here :
      (before : Str) (r : Record) (rest : List Record)
      → ¬ (IsSound r × (r.prev_hash ≡ before))
      → BrokenAt before (r ∷ rest) 0
  BrokenAt-here before r rest bad = record {
    culprit = r;
    at = refl;
    broken = bad;
    earlier = λ j x lt e. elim lt [ ];
  }

  BrokenAt-later :
      (before : Str) (r : Record) (rest : List Record) (i : ℕ)
      → IsSound r × (r.prev_hash ≡ before)
      → BrokenAt r.hash rest i
      → BrokenAt before (r ∷ rest) (suc i)
  BrokenAt-later before r rest i good b = record {
    culprit = b.culprit;
    at = b.at;
    broken = b.broken;
    earlier = λ j x lt e. later j x lt e;
  }
    where
      later :
          (j : ℕ) (x : Record)
          → j < suc i
          → get_elem? (r ∷ rest) j ≡ some x
          → IsSound x × (x.prev_hash ≡ hash_before before (r ∷ rest) j)
      later zero x lt e =
          subst (λ y. IsSound y × (y.prev_hash ≡ before)) (some-injective r x e) good
      later (suc j) x lt e = b.earlier j x (omega arith) e

  -- Where the loop from index `i` reports `k`, the record at `k - i` is the first that breaks.
  verify_from-BrokenAt :
      (i : ℕ) (before : Str) (records : List Record) (k : ℕ) (e : Error)
      → (i ≡ 0 → before ≡ [])
      → verify_from c i before records ≡ some (k, e)
      → (d : ℕ) × (k ≡ i + d) × BrokenAt before records d
  unfolding verify_from
  verify_from-BrokenAt i before [] k e first h = cc
  verify_from-BrokenAt i before (r ∷ rest) k e first h = elim (Option-cases (validate c r)) [
    | inr (x, bad) ↦
        (0, ground arith, BrokenAt-here before r rest (λ s. cc (IsSound-validate r s.0)))
    | inl good ↦ elim (Bool-cases (str_eq r.prev_hash before)) [
      | inl same ↦
          let (d, at, b) =
            verify_from-BrokenAt (i + 1) r.hash rest k e (λ z. absurd (omega arith))
              (ground
                (arith, ==_iff i 0, is_empty_iff r.prev_hash, str_eq_iff r.prev_hash before)) in
          (
            suc d,
            omega arith,
            BrokenAt-later before r rest d
                (validate-IsSound r good, (str_eq_iff r.prev_hash before).0 same) b,
          )
      | inr other ↦ (
        0,
        ground (arith, ==_iff i 0, is_empty_iff r.prev_hash, str_eq_iff r.prev_hash before),
        BrokenAt-here before r rest (λ s. ground (arith, str_eq_iff r.prev_hash before)),
      )
    ]
  ]

  -- The index that VerifyChain reports is that of the first record that is not sound or does not
  -- name the hash of its predecessor; the records before it form a chain.
  pub verify_chain-BrokenAt :
      (records : List Record) (k : ℕ) (e : Error)
      → verify_chain c records ≡ some (k, e)
      → BrokenAt [] records k
  unfolding verify_chain
  verify_chain-BrokenAt records k e h =
      let (d, at, b) = verify_from-BrokenAt 0 [] records k e (λ _. refl) h in
      subst (BrokenAt [] records) (omega arith) b

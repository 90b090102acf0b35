-- ===== src/Trace/Tamper.antt =====
-- The last hash of a trace of pkg/trace pins the whole trace down.
use mathlib.Core.Path.{ap₂, subst}
use mathlib.Core.List.{reverse, reverse-append, reverse-cons, map-append}
use proxclt.Base.{
  Str, none, List, map, Result, >>=-ok, ok-injective, ◌⊎◌, inl, inr, [], ◌∷◌, ◌++◌, ok, ◌≡◌, ◌≢◌,
  refl, ap, sym, append_assoc, append-nil, ◌∙◌,
}
use proxclt.Trace.Schema.{Record, Codec, compute_hash, verify_chain}
use proxclt.Trace.Chain.{IsSound, Linked, verify_chain-Linked}

-- The hash of the newest record of a trace that follows the hash `before`.
abbrev pub end_hash : Str → List Record → Str
end_hash before [] = before
end_hash before (r ∷ rest) = end_hash r.hash rest

-- What a record names as its predecessor's hash: nothing, or a digest.
abbrev pub IsLink : Codec → Str → Type 0
IsLink c h = (h ≡ []) ⊎ ((b : Str) × (h ≡ c.digest b))

-- What is asked of the digest, that it is free of collisions and never empty, and of the JSON of two
-- records: texts that are the same name the same predecessor, where both records name a digest or
-- none. Nothing is asked of the other fields, whose values may have one text.
pub record IsCollisionFree (c : Codec) : Type 0 where
  pub injective : (a b : Str) → c.digest a ≡ c.digest b → a ≡ b
  pub nonempty : (b : Str) → c.digest b ≢ []
  pub linked :
      (r s : Record) (b : Str)
      → IsLink c r.prev_hash
      → IsLink c s.prev_hash
      → c.marshal r ≡ ok b
      → c.marshal s ≡ ok b
      → r.prev_hash ≡ s.prev_hash

module _ (c : Codec) where
  -- What the hash of a record is made of, with that hash: its JSON without it.
  abbrev pub canonical : Record → Result Str × Str
  canonical r = (c.marshal (record r { hash = [] }), r.hash)

  -- The chain with the newest record first.
  abbrev top : List Record → Str
  top [] = []
  top (r ∷ older) = r.hash

  abbrev Stacked : List Record → Type 0
  Stacked [] = Unit
  Stacked (r ∷ older) = IsSound c r × (r.prev_hash ≡ top older) × Stacked older

  hash_text :
      (r : Record)
      → IsSound c r
      → (b : Str) × (c.marshal (record r { hash = [] }) ≡ ok b) × (c.digest b ≡ r.hash)
  unfolding compute_hash
  hash_text r s =
      let (b, m, e) = >>=-ok (c.marshal (record r { hash = [] })) (λ b. ok (c.digest b)) s.hashed in
      (b, m, ok-injective e)

  hash-nonempty : IsCollisionFree c → (r : Record) → IsSound c r → r.hash ≢ []
  hash-nonempty free r s e = let (b, m, d) = hash_text r s in free.nonempty b (d ∙ e)

  top-IsLink : (older : List Record) → Stacked older → IsLink c (top older)
  top-IsLink [] s = inl refl
  top-IsLink (r ∷ older) s = let (b, m, d) = hash_text r s.0 in inr (b, sym d)

  Stacked-unique :
      IsCollisionFree c
      → (xs ys : List Record) → Stacked xs
      → Stacked ys
      → top xs ≡ top ys
      → map canonical xs ≡ map canonical ys
  Stacked-unique free [] [] sx sy h = refl
  Stacked-unique free [] (y ∷ ys) sx sy h = absurd (hash-nonempty free y sy.0 (sym h))
  Stacked-unique free (x ∷ xs) [] sx sy h = absurd (hash-nonempty free x sx.0 h)
  Stacked-unique free (x ∷ xs) (y ∷ ys) sx sy h =
      let (a, m, d) = hash_text x sx.0 in
      let (b, n, e) = hash_text y sy.0 in
      let same : a ≡ b = free.injective a b (d ∙ h ∙ sym e) in
      let before : x.prev_hash ≡ y.prev_hash =
        free.linked (record x { hash = [] }) (record y { hash = [] }) b
          (subst (IsLink c) (sym sx.1) (top-IsLink xs sx.2))
          (subst (IsLink c) (sym sy.1) (top-IsLink ys sy.2)) (m ∙ ap ok same) n in
      ap₂ ◌∷◌ (ap₂ (λ t k. (t, k)) (m ∙ ap ok same ∙ sym n) h)
        (Stacked-unique free xs ys sx.2 sy.2 (sym sx.1 ∙ before ∙ sy.1))

  abbrev onto : List Record → List Record → List Record
  onto [] older = older
  onto (r ∷ rest) older = onto rest (r ∷ older)

  onto-eq-reverse : (records older : List Record) → onto records older ≡ reverse records ++ older
  onto-eq-reverse [] older = refl
  onto-eq-reverse (r ∷ rest) older =
      rw (reverse-cons, append_assoc) (onto-eq-reverse rest (r ∷ older))

  onto-Stacked :
      (records older : List Record)
      → Linked c (top older) records
      → Stacked older
      → Stacked (onto records older)
  onto-Stacked [] older l s = s
  onto-Stacked (r ∷ rest) older l s = onto-Stacked rest (r ∷ older) l.2 (l.0, l.1, s)

  top-onto : (records older : List Record) → top (onto records older) ≡ end_hash (top older) records
  top-onto [] older = refl
  top-onto (r ∷ rest) older = top-onto rest (r ∷ older)

  reversed : (xs : List Record) → onto xs [] ≡ reverse xs
  reversed xs = onto-eq-reverse xs [] ∙ append-nil (reverse xs)

  oldest_first : (xs : List Record) → map canonical xs ≡ reverse (map canonical (reverse xs))
  oldest_first [] = refl
  oldest_first (x ∷ xs) =
      ap (λ l. canonical x ∷ l) (oldest_first xs)
      ∙ sym (reverse-append (map canonical (reverse xs)) (canonical x ∷ []))
      ∙ sym (ap reverse (map-append canonical (reverse xs) (x ∷ [])))
      ∙ sym (ap (λ l. reverse (map canonical l)) (reverse-cons x xs))

  -- With a digest free of collisions, two traces that VerifyChain accepts and that end in the same
  -- hash have the same hashes and the same texts under them, record by record: a record whose text
  -- is altered, one that is dropped and one that is moved show in the last hash.
  pub tamper_evident :
      IsCollisionFree c
      → (xs ys : List Record) → verify_chain c xs ≡ none
      → verify_chain c ys ≡ none
      → end_hash [] xs ≡ end_hash [] ys
      → map canonical xs ≡ map canonical ys
  tamper_evident free xs ys vx vy h =
      let newest_first : map canonical (reverse xs) ≡ map canonical (reverse ys) =
        ap (map canonical) (sym (reversed xs))
        ∙ Stacked-unique free (onto xs []) (onto ys [])
            (onto-Stacked xs [] ((verify_chain-Linked c xs).0 vx) tt)
            (onto-Stacked ys [] ((verify_chain-Linked c ys).0 vy) tt)
            (top-onto xs [] ∙ h ∙ sym (top-onto ys []))
        ∙ ap (map canonical) (reversed ys) in
      oldest_first xs ∙ ap reverse newest_first ∙ sym (oldest_first ys)

-- ===== src/Workflow/Finalize/Addresses.antt =====
-- pickFinalizeIP of pkg/workflow/finalize.go.
use proxclt.Base.{
  str_leb, Str, lit, is_empty, str_eq, true, false, Bool-cases, none, some, List, [], ◌∷◌, All, ◌≡◌,
  ◌↔◌, ◌⊎◌, inl, inr, refl,
}
use proxclt.Config.Model.{Dict, lookup}
use proxclt.Workflow.Finalize.{least, address_at, pick_in, pick_finalize_ip}

-- An entry without an address.
abbrev pub Blank : Str × Str → Type 0
Blank e = is_empty e.1 ≡ true

-- An entry with one is kept, or replaced by another one.
least-some :
    (j u : Str) (ips : Dict Str)
    → is_empty u ≡ false
    → (e : Str × Str) × ((least (some (j, u)) ips ≡ some e) × (is_empty e.1 ≡ false))
unfolding least
least-some j u [] h = ((j, u), (refl, h))
least-some j u ((k, v) ∷ rest) h = elim (Bool-cases (is_empty v)) [
  | inl b ↦ rw b (least-some j u rest h)
  | inr b ↦ elim (Bool-cases (str_leb j k)) [
    | inl c ↦ rw (b, c) (least-some j u rest h)
    | inr c ↦ rw (b, c) (least-some k v rest b)
  ]
]

-- The choice by the order of the keys finds an address, unless there is none.
least-none :
    (ips : Dict Str)
    → ((least none ips ≡ none) × All Blank ips)
      ⊎ ((e : Str × Str) × ((least none ips ≡ some e) × (is_empty e.1 ≡ false)))
unfolding least
least-none [] = inl (refl, tt)
least-none ((k, v) ∷ rest) = elim (Bool-cases (is_empty v)) [
  | inl b ↦ elim (least-none rest) [
    | inl found ↦ inl (rw b found.0, (b, found.1))
    | inr found ↦ inr (rw b found)
  ]
  | inr b ↦ inr (rw b (least-some k v rest b))
]

address_at-Blank : (k : Str) (ips : Dict Str) → All Blank ips → is_empty (address_at k ips) ≡ true
unfolding lookup is_empty
address_at-Blank k [] h = refl
address_at-Blank k ((j, v) ∷ rest) h = elim (Bool-cases (str_eq j k)) [
  | inl b ↦ rw (b, is_empty) h.0
  | inr b ↦ rw (b, is_empty) (address_at-Blank k rest h.1)
]

least-Blank : (ips : Dict Str) → All Blank ips → least none ips ≡ none
unfolding least
least-Blank [] h = refl
least-Blank ((k, v) ∷ rest) h = rw h.0 (least-Blank rest h.1)

pick_in-Blank :
    (ips : Dict Str) (ks : List Str) → All Blank ips → is_empty (pick_in ips ks).0 ≡ true
unfolding pick_in is_empty
pick_in-Blank ips [] h = rw (least-Blank ips h, is_empty) refl
pick_in-Blank ips (k ∷ ks) h = rw (address_at-Blank k ips h, is_empty) (pick_in-Blank ips ks h)

pick_in-finds :
    (ips : Dict Str) (ks : List Str) → is_empty (pick_in ips ks).0 ≡ true → All Blank ips
unfolding pick_in
pick_in-finds ips [] h = elim (least-none ips) [
  | inl found ↦ found.1
  | inr found ↦ let bad = rw (found.1.0, is_empty) at h in cc (bad, found.1.1)
]
pick_in-finds ips (k ∷ ks) h = elim (Bool-cases (is_empty (address_at k ips))) [
  | inl b ↦ pick_in-finds ips ks (rw b at h)
  | inr b ↦ let bad = rw b at h in cc (bad, b)
]

-- Finalize finds no address to probe exactly if no address of the node is set, whatever the slots
-- are named.
pub pick_finalize_ip_iff :
    (ips : Dict Str) → (is_empty (pick_finalize_ip ips).0 ≡ true) ↔ All Blank ips
unfolding pick_finalize_ip
pick_finalize_ip_iff ips = (
  pick_in-finds ips (lit "management" ∷ lit "public" ∷ lit "private" ∷ []),
  pick_in-Blank ips (lit "management" ∷ lit "public" ∷ lit "private" ∷ []),
)

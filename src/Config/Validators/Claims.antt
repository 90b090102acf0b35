-- ===== src/Config/Validators/Claims.antt =====
-- The claims that the nodes of a manifest lay, and checks of validateUniqueness in
-- pkg/config/validators.go as the laying of claims.
use mathlib.Core.Path.{subst, fun_ext}
use mathlib.Core.Logic.Or
use mathlib.Core.List.{Mem, Nodup, Nodup-nil, Nodup-cons, mem-cons, not-mem-nil}
use proxclt.Base.{
  ℕ, ◌==◌, ==_iff, Str, str_eq, str_eq_iff, Bool, true, false, ◌&&◌, ◌||◌, if◌then◌else◌, Option,
  none, some, List, [], ◌∷◌, ◌++◌, Error, Result, ok, err, ◌>>=◌, ◌≡◌, ◌↔◌, inl, inr, refl, ap, sym,
  ◌∙◌, arith, Bool-cases,
}
use proxclt.Config.Model.{Dict, Nic, Node}
use proxclt.Config.Validators.{
  Seen, nothing_seen, has_name, vm_owner, mac_owner, ip_owner, has_mac, zone_address,
}

-- What a node lays claim to: its name, its VM id, and the addresses of its NICs.
pub data Claim : Type 0 where
  host : Str → Claim
  vm : ℕ → Claim
  mac : Str → Claim
  ip : Str → Str → Claim

abbrev pub mac_claims : Nic → List Claim
mac_claims nic = if has_mac nic then mac nic.mac ∷ [] else []

abbrev pub ip_claims : Nic → List Claim
ip_claims nic = elim (zone_address nic) [ none ↦ [] | some addr ↦ ip nic.network addr ∷ [] ]

abbrev pub nic_claims : List Nic → List Claim
nic_claims [] = []
nic_claims (nic ∷ rest) = mac_claims nic ++ (ip_claims nic ++ nic_claims rest)

abbrev pub node_claims : Str × Node → List Claim
node_claims (name, node) = host name ∷ vm node.proxmox.vmid ∷ nic_claims node.nics

abbrev pub claims : Dict Node → List Claim
claims [] = []
claims (n ∷ rest) = node_claims n ++ claims rest

-- Does the map of its kind hold the claim?
unfoldable pub taken : Claim → Seen → Bool
taken (host k) s = has_name k s.hostnames
taken (vm k) s = elim (vm_owner k s.vm_ids) [ none ↦ false | some o ↦ true ]
taken (mac k) s = elim (mac_owner k s.macs) [ none ↦ false | some o ↦ true ]
taken (ip z a) s = elim (ip_owner z a s.ips) [ none ↦ false | some o ↦ true ]

unfoldable pub stake : Str → Claim → Seen → Seen
stake owner (host k) s = record s { hostnames = k ∷ s.hostnames }
stake owner (vm k) s = record s { vm_ids = (k, owner) ∷ s.vm_ids }
stake owner (mac k) s = record s { macs = (k, owner) ∷ s.macs }
stake owner (ip z a) s = record s { ips = (z, a, owner) ∷ s.ips }

pub same : Claim → Claim → Bool
same (host j) (host k) = str_eq j k
same (vm j) (vm k) = j == k
same (mac j) (mac k) = str_eq j k
same (ip y a) (ip z b) = str_eq y z && str_eq a b
same _ _ = false

pub same_iff : (a b : Claim) → (same a b ≡ true) ↔ (a ≡ b)
unfolding same
same_iff (host j) (host k) =
    (λ h. ground (arith, str_eq_iff j k), λ h. ground (arith, str_eq_iff j k))
same_iff (vm j) (vm k) = (λ h. ground (arith, ==_iff j k), λ h. ground (arith, ==_iff j k))
same_iff (mac j) (mac k) =
    (λ h. ground (arith, str_eq_iff j k), λ h. ground (arith, str_eq_iff j k))
same_iff (ip y a) (ip z b) = (
  λ h. ground (arith, str_eq_iff y z, str_eq_iff a b),
  λ h. ground (arith, str_eq_iff y z, str_eq_iff a b),
)
same_iff _ _ = (λ h. cc, λ h. cc)

taken-stake :
    (owner : Str) (c d : Claim) (s : Seen) → taken d (stake owner c s) ≡ (same c d || taken d s)
unfolding taken stake same has_name vm_owner mac_owner ip_owner
taken-stake owner (host j) (host k) s = refl
taken-stake owner (vm j) (vm k) s = ground arith
taken-stake owner (mac j) (mac k) s = ground arith
taken-stake owner (ip y a) (ip z b) s = ground arith
taken-stake owner _ _ s = refl

-- No claim of the list is taken, by `t` or by one before it.
abbrev pub Untaken : List Claim → (Claim → Bool) → Type 0
Untaken [] t = Unit
Untaken (c ∷ cs) t = (t c ≡ false) × Untaken cs (λ d. same c d || t d)

abbrev pub add : List Claim → (Claim → Bool) → Claim → Bool
add [] t = t
add (c ∷ cs) t = add cs (λ d. same c d || t d)

abbrev pub view : Seen → Claim → Bool
view s d = taken d s

-- A part of the check that starts in `t`: it lays the claims `cs`, or fails as one is taken.
pub data Lays (cs : List Claim) (t : Claim → Bool) (r : Result Seen) : Type 0 where
  laid : (s : Seen) → Untaken cs t → r ≡ ok s → view s ≡ add cs t → Lays cs t r
  refused : (e : Error) → ¬ Untaken cs t → r ≡ err e → Lays cs t r

Untaken-append :
    (cs ds : List Claim) (t : Claim → Bool)
    → Untaken (cs ++ ds) t ↔ (Untaken cs t × Untaken ds (add cs t))
Untaken-append [] ds t = (λ h. (tt, h), λ h. h.1)
Untaken-append (c ∷ cs) ds t =
    let ih = Untaken-append cs ds (λ d. same c d || t d) in
    (λ h. ((h.0, (ih.0 h.1).0), (ih.0 h.1).1), λ h. (h.0.0, ih.1 (h.0.1, h.1)))

add-append : (cs ds : List Claim) (t : Claim → Bool) → add (cs ++ ds) t ≡ add ds (add cs t)
add-append [] ds t = refl
add-append (c ∷ cs) ds t = add-append cs ds (λ d. same c d || t d)

pub Lays-nothing : (s : Seen) → Lays [] (view s) (ok s)
Lays-nothing s = laid s tt refl refl

-- One check after another lays the claims of both.
pub Lays-bind :
    (cs ds : List Claim) (t : Claim → Bool) (r : Result Seen) (f : Seen → Result Seen)
    → Lays cs t r
    → ((s : Seen) → Lays ds (view s) (f s))
    → Lays (cs ++ ds) t (r >>= f)
Lays-bind cs ds t r f (refused e clash p) next =
    refused e (λ h. clash ((Untaken-append cs ds t).0 h).0) (ap (λ (x : Result Seen). x >>= f) p)
Lays-bind cs ds t r f (laid s yes₁ p v) next = second (next s)
  where
    second : Lays ds (view s) (f s) → Lays (cs ++ ds) t (r >>= f)
    second (laid s' yes₂ q w) =
        laid s' ((Untaken-append cs ds t).1 (yes₁, subst (Untaken ds) v yes₂))
          (ap (λ (x : Result Seen). x >>= f) p ∙ q) (w ∙ ap (add ds) v ∙ sym (add-append cs ds t))
    second (refused e clash q) =
        refused e (λ h. clash (subst (Untaken ds) (sym v) ((Untaken-append cs ds t).0 h).1))
          (ap (λ (x : Result Seen). x >>= f) p ∙ q)

-- A check of one claim that asks the map of its kind.
pub Lays-one :
    (owner : Str) (c : Claim) (s : Seen) (r : Result Seen)
    → (taken c s ≡ false → r ≡ ok (stake owner c s))
    → (taken c s ≡ true → (e : Error) × (r ≡ err e))
    → Lays (c ∷ []) (view s) r
Lays-one owner c s r free occupied = elim (Bool-cases (taken c s)) [
  | inr f ↦ laid (stake owner c s) (f, tt) (free f) (fun_ext (λ d. taken-stake owner c d s))
  | inl t ↦ let (x, p) = occupied t in refused x (λ h. cc (h.0)) p
]

-- A check that asks for the owner of its claim.
pub Lays-asked :
    (owner : Str) (c : Claim) (s : Seen) (x : Option Str) (f : Str → Error)
    → taken c s ≡ elim x as (λ _. Bool) [ none ↦ false | some o ↦ true ]
    → Lays
        (c ∷ [])
        (view s)
        (elim x as (λ _. Result Seen) [ none ↦ ok (stake owner c s) | some prev ↦ err (f prev) ])
Lays-asked owner c s none f h = Lays-one owner c s _ (λ _. refl) (λ t. cc (h, t))
Lays-asked owner c s (some prev) f h = Lays-one owner c s _ (λ t. cc (h, t)) (λ _. (f prev, refl))

Bool-set : (a b : Bool) → IsProp (a ≡ b)
Bool-set = hlevel

or-false : (a b : Bool) → ((a || b) ≡ false) ↔ ((a ≡ false) × (b ≡ false))
or-false a b = (λ h. ground arith, λ h. ground arith)

Untaken-Nodup :
    (cs : List Claim) (t : Claim → Bool)
    → Untaken cs t ↔ (Nodup cs × ((c : Claim) → Mem c cs → t c ≡ false))
Untaken-Nodup [] t = (λ _. (Nodup-nil, λ c m. absurd (not-mem-nil m)), λ _. tt)
Untaken-Nodup (c ∷ cs) t =
    let ih = Untaken-Nodup cs (λ d. same c d || t d) in
    (
      λ h.
          let (n, f) = ih.0 h.1 in
          (
            Nodup-cons.1
                (λ m. cc ((same_iff c c).1 refl, ((or-false (same c c) (t c)).0 (f c m)).0), n),
            λ d m.
                Or.elim (Bool-set (t d) false) (mem-cons.0 m) (λ e. ap t e ∙ h.0)
                  (λ m'. ((or-false (same c d) (t d)).0 (f d m')).1),
          ),
      λ h.
          let (fresh, n) = Nodup-cons.0 h.0 in
          (
            h.1 c (mem-cons.1 (Or.inl refl)),
            ih.1 (
              n,
              λ d m. (or-false (same c d) (t d)).1 (
                different c d (λ e. fresh (subst (λ x. Mem x cs) (sym e) m)),
                h.1 d (mem-cons.1 (Or.inr m)),
              ),
            ),
          ),
    )
  where
    different : (a b : Claim) → ¬ (a ≡ b) → same a b ≡ false
    different a b ne = elim (Bool-cases (same a b)) [
      | inl yes₁ ↦ absurd (ne ((same_iff a b).0 yes₁))
      | inr no₁ ↦ no₁
    ]

nothing-taken : (c : Claim) → taken c nothing_seen ≡ false
unfolding taken has_name vm_owner mac_owner ip_owner
nothing-taken (host k) = refl
nothing-taken _ = refl

pub Untaken-nothing_seen : (cs : List Claim) → Untaken cs (view nothing_seen) ↔ Nodup cs
Untaken-nothing_seen cs = (
  λ h. ((Untaken-Nodup cs (view nothing_seen)).0 h).0,
  λ n. (Untaken-Nodup cs (view nothing_seen)).1 (n, λ c m. nothing-taken c),
)

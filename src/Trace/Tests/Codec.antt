-- ===== src/Trace/Tests/Codec.antt =====
-- A codec that meets what the theorems of Trace ask of encoding/json and crypto/sha256.
use native.Mathlib.Decide.{ℕ_discrete}
use proxclt.Base.{
  ℕ, zero, suc, ◌+◌, ◌-◌, leb, Str, Bool, true, false, if◌then◌else◌, [], ◌∷◌, ◌++◌, ◌&&◌,
  ok-injective, errorf, Result, ok, err, ◌≡◌, refl, ap, sym, ◌∙◌, arith, length, is_empty,
}
use proxclt.Trace.Schema.{Record, Decision, executed, Codec}
use proxclt.Trace.Reader.{drop_return}
use proxclt.Trace.Tamper.{IsCollisionFree}
use proxclt.Trace.Lines.{IsLine, IsPlain}
use proxclt.Trace.Holds.{IsLineCodec}

unfoldable pub Decision-discrete : Discrete Decision
unfolding ℕ_discrete
Decision-discrete = hlevel ℕ_discrete

unfoldable pub Record-discrete : Discrete Record
unfolding Decision-discrete ℕ_discrete
Record-discrete = hlevel (ℕ_discrete, Decision-discrete)

abbrev take : ℕ → Str → Str
take zero s = []
take (suc n) [] = []
take (suc n) (a ∷ s) = a ∷ take n s

abbrev drop : ℕ → Str → Str
drop zero s = s
drop (suc n) [] = []
drop (suc n) (a ∷ s) = drop n s

-- A record of which only the time and the two hashes count.
abbrev pub entry : ℕ → Str → Str → Record
entry ts prev hash = record {
  schema_version = 1;
  ts = ts;
  step_id = [];
  tool = [];
  input = [];
  output = [];
  decision = executed;
  deny_rule = [];
  error = [];
  duration_ms = 0;
  prev_hash = prev;
  hash = hash;
}

unfoldable pub encode : Record → Str
encode r = (r.ts + 100) ∷ (length r.prev_hash + 100) ∷ (r.prev_hash ++ r.hash)

unfoldable pub decode : Str → Result Record
decode [] = err (errorf "empty" [])
decode (t ∷ []) = err (errorf "short" [])
decode (t ∷ n ∷ rest) = ok (entry (t - 100) (take (n - 100) rest) (drop (n - 100) rest))

unfoldable pub all_printed : Str → Bool
all_printed [] = true
all_printed (a ∷ s) = leb 32 a && all_printed s

all_printed-plain : (s : Str) → all_printed s ≡ true → IsPlain s
unfolding all_printed
all_printed-plain [] h = tt
all_printed-plain (a ∷ s) h = (ground arith, all_printed-plain s (ground arith))

all_printed-no_return : (s : Str) → all_printed s ≡ true → drop_return s ≡ s
unfolding all_printed drop_return
all_printed-no_return [] h = refl
all_printed-no_return (a ∷ []) h = ground arith
all_printed-no_return (a ∷ b ∷ s) h =
    ap (λ (z : Str). a ∷ z) (all_printed-no_return (b ∷ s) (ground arith))

unfoldable pub same : Result Record → Record → Bool
unfolding Record-discrete
same (err e) r = false
same (ok x) r = elim (Record-discrete x r) [ yes p ↦ true | no p ↦ false ]

same-eq : (x : Result Record) (r : Record) → same x r ≡ true → x ≡ ok r
unfolding same
same-eq (err e) r h = cc
same-eq (ok x) r h = decided (Record-discrete x r) h
  where
    decided :
        (d : Dec (x ≡ r))
        → elim d as (λ _. Bool) [ yes p ↦ true | no p ↦ false ] ≡ true
        → ok x ≡ ok r
    decided (yes p) e = ap ok p
    decided (no p) e = cc

unfoldable pub to_line : Record → Result Str
unfolding same decode encode all_printed
to_line r =
    if same (decode (encode r)) r && all_printed (encode r)
    then ok (encode r)
    else err (errorf "not an entry" [])

abbrev pub toy_codec : Codec
toy_codec = record { marshal = to_line; unmarshal = decode; digest = λ b. 49 ∷ b }

to_line-ok :
    (r : Record) (b : Str)
    → to_line r ≡ ok b
    → (b ≡ encode r) × (decode (encode r) ≡ ok r) × (all_printed (encode r) ≡ true)
unfolding to_line
to_line-ok r b h = ground (arith, same-eq (decode (encode r)) r)

encode-nonempty : (r : Record) → is_empty (encode r) ≡ false
unfolding encode is_empty
encode-nonempty r = refl

toy_codec-IsLine : (r : Record) (b : Str) → to_line r ≡ ok b → IsLine b
toy_codec-IsLine r b h =
    let (e, d, p) = to_line-ok r b h in
    record {
      nonempty = ap is_empty e ∙ encode-nonempty r;
      plain = all_printed-plain b (ap all_printed e ∙ p);
    }

pub toy_codec-IsLineCodec : IsLineCodec toy_codec
toy_codec-IsLineCodec = record {
  line = toy_codec-IsLine;
  no_return =
      λ r b h. let (e, d, p) = to_line-ok r b h in all_printed-no_return b (ap all_printed e ∙ p);
}

-- A record with a line is read back from it.
pub to_line-back : (r : Record) (b : Str) → to_line r ≡ ok b → decode b ≡ ok r
to_line-back r b h = let (e, d, p) = to_line-ok r b h in ap decode e ∙ d

same_line :
    (r s : Record) (b : Str) → to_line r ≡ ok b → to_line s ≡ ok b → r.prev_hash ≡ s.prev_hash
same_line r s b p q =
    ap (λ (x : Record). x.prev_hash) (ok-injective (sym (to_line-back r b p) ∙ to_line-back s b q))

tail_of : Str → Str
tail_of [] = []
tail_of (c ∷ s) = s

pub toy_codec-IsCollisionFree : IsCollisionFree toy_codec
unfolding tail_of
toy_codec-IsCollisionFree = record {
  injective = λ a b e. ap tail_of e;
  nonempty = λ b e. cc e;
  linked = λ r s b hr hs p q. same_line r s b p q;
}

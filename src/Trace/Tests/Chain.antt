-- ===== src/Trace/Tests/Chain.antt =====
-- The chain of two records, and the theorems on chains for it.
use proxclt.Base.{str_eq, is_empty, none, some, map, [], ◌∷◌, hash_mismatch, ◌≡◌, ◌↔◌, refl}
use proxclt.Trace.Schema.{Record, compute_hash, validate, verify_from, verify_chain}
use proxclt.Trace.Chain.{IsChain, verify_chain_iff, BrokenAt, verify_chain-BrokenAt}
use proxclt.Trace.Tamper.{canonical, tamper_evident}
use proxclt.Trace.Tests.Codec.{entry, toy_codec, to_line, toy_codec-IsCollisionFree}

abbrev pub first : Record
first = entry 5 [] (49 ∷ 105 ∷ 100 ∷ [])

abbrev pub second : Record
second = entry 7 first.hash (49 ∷ 107 ∷ 103 ∷ 49 ∷ 105 ∷ 100 ∷ [])

-- The second record with another time.
abbrev pub altered : Record
altered = entry 8 first.hash second.hash

pub chain_accepted : verify_chain toy_codec (first ∷ second ∷ []) ≡ none
unfolding verify_chain verify_from validate compute_hash str_eq is_empty to_line
chain_accepted = refl

pub altered_refused : verify_chain toy_codec (first ∷ altered ∷ []) ≡ some (1, hash_mismatch)
unfolding verify_chain verify_from validate compute_hash str_eq is_empty to_line
altered_refused = refl

verify_chain_iff_example :
    (verify_chain toy_codec (first ∷ second ∷ []) ≡ none) ↔ IsChain toy_codec (first ∷ second ∷ [])
verify_chain_iff_example = verify_chain_iff toy_codec (first ∷ second ∷ [])

verify_chain-BrokenAt_example : BrokenAt toy_codec [] (first ∷ altered ∷ []) 1
verify_chain-BrokenAt_example =
    verify_chain-BrokenAt toy_codec (first ∷ altered ∷ []) 1 hash_mismatch altered_refused

tamper_evident_example :
    map (canonical toy_codec) (first ∷ second ∷ [])
    ≡ map (canonical toy_codec) (first ∷ second ∷ [])
tamper_evident_example =
    tamper_evident toy_codec toy_codec-IsCollisionFree (first ∷ second ∷ []) (first ∷ second ∷ [])
      chain_accepted chain_accepted refl

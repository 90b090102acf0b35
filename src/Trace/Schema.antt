-- ===== src/Trace/Schema.antt =====
-- pkg/trace/schema.go: the trace record, its hash, and the check of a chain of records.
use proxclt.Base.{
  ℕ, ◌+◌, ◌==◌, Str, str_eq, is_empty, if◌then◌else◌, Option, none, some, List, [], ◌∷◌, Error,
  unknown_schema, chain_broken, hash_mismatch, Result, ok, err, ◌>>=◌,
}

pub data Decision : Type 0 where
  executed skipped denied failed : Decision
  other : Str → Decision

pub record Record : Type 0 where
  pub schema_version : ℕ
  pub ts : ℕ
  pub step_id : Str
  pub tool : Str
  pub input : Str
  pub output : Str
  pub decision : Decision
  pub deny_rule : Str
  pub error : Str
  pub duration_ms : ℕ
  pub prev_hash : Str
  pub hash : Str

abbrev pub current_schema_version : ℕ
current_schema_version = 1

-- What the package takes from encoding/json and crypto/sha256: a record as one line of JSON and
-- back, and the hex digest of a text.
pub record Codec : Type 0 where
  pub marshal : Record → Result Str
  pub unmarshal : Str → Result Record
  pub digest : Str → Str

module _ (c : Codec) where
  unfoldable pub compute_hash : Record → Result Str
  compute_hash r = do b ← c.marshal (record r { hash = [] }); ok (c.digest b)

  unfoldable pub validate : Record → Option Error
  validate r =
      if r.schema_version == current_schema_version
      then (elim (compute_hash r) [
        | err e ↦ some e
        | ok want ↦ if str_eq want r.hash then none else some hash_mismatch
      ])
      else some unknown_schema

  -- The loop of VerifyChain from index `i` on; `before` is the hash of the record at `i - 1`.
  unfoldable pub verify_from : ℕ → Str → List Record → Option (ℕ × Error)
  verify_from i before [] = none
  verify_from i before (r ∷ rest) =
      let later = verify_from (i + 1) r.hash rest in
      elim (validate r) [
        | some e ↦ some (i, e)
        | none ↦
            if i == 0
            then (if is_empty r.prev_hash then later else some (0, chain_broken))
            else (if str_eq r.prev_hash before then later else some (i, chain_broken))
      ]

  -- `none` stands for the index -1 with no error.
  unfoldable pub verify_chain : List Record → Option (ℕ × Error)
  verify_chain records = verify_from 0 [] records

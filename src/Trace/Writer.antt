-- ===== src/Trace/Writer.antt =====
-- pkg/trace/writer.go: the writer that appends records to a trace file and links them.
use mathlib.Core.List.{reverse}
use proxclt.Base.{
  ℕ, ◌==◌, Str, is_empty, if◌then◌else◌, Option, none, some, [], ◌∷◌, ◌++◌, Error, wrapf, Result,
  ok, err, ◌>>=◌,
}
use proxclt.Trace.Schema.{Record, Codec, compute_hash, current_schema_version}

-- What the operating system answers while a writer is opened: the errors of MkdirAll and OpenFile,
-- and what is read from the path, where it exists.
pub record FileSystem : Type 0 where
  pub mkdir : Option Error
  pub existing : Option (Result Str)
  pub open_file : Option Error

-- `file` is what the file holds, `buf` what waits in the buffer.
pub record Writer : Type 0 where
  pub file : Str
  pub buf : Str
  pub prev_hash : Str

-- All that was written, flushed or not.
abbrev pub contents : Writer → Str
contents w = w.file ++ w.buf

unfoldable pub drop_newline : Str → Str
drop_newline [] = []
drop_newline (a ∷ s) = if a == 10 then s else a ∷ s

unfoldable pub until_newline : Str → Str
until_newline [] = []
until_newline (a ∷ s) = if a == 10 then [] else a ∷ until_newline s

-- data[start:end] of readLastRecord; its two loops go back from the end.
unfoldable pub last_line : Str → Str
unfolding drop_newline until_newline
last_line text = reverse (until_newline (drop_newline (reverse text)))

-- The record that Write stores: version and time filled in, linked and hashed.
unfoldable pub stamp : ℕ → Str → Record → Record
stamp now prev r = record r {
  schema_version = if r.schema_version == 0 then current_schema_version else r.schema_version;
  ts = if r.ts == 0 then now else r.ts;
  prev_hash = prev;
}

unfoldable pub existing_text : Option (Result Str) → Str
existing_text none = []
existing_text (some (err e)) = []
existing_text (some (ok text)) = text

unfoldable pub store : Option Error → Option Error → Str → Str → Writer → Result (Unit {0}) × Writer
store (some e) newline b h w = (err (wrapf "trace writer: write" [] e), w)
store none (some e) b h w =
    (err (wrapf "trace writer: write newline" [] e), record w { buf = w.buf ++ b })
store none none b h w = (ok tt, record w { buf = w.buf ++ (b ++ 10 ∷ []); prev_hash = h })

-- The second half of Write, after json.Marshal of the record with the hash `h`.
unfoldable pub encoded :
    Option Error → Option Error → Str → Writer → Result Str → Result (Unit {0}) × Writer
encoded line newline h w (err e) = (err (wrapf "trace writer: marshal" [] e), w)
encoded line newline h w (ok b) = store line newline b h w

module _ (c : Codec) where
  unfoldable pub read_last_record : Str → Result (Option Record)
  read_last_record text =
      let line = last_line text in
      if is_empty line then ok none else (do r ← c.unmarshal line; ok (some r))

  unfoldable pub resume_hash : Option (Result Str) → Str
  resume_hash none = []
  resume_hash (some (err e)) = []
  resume_hash (some (ok text)) = elim (read_last_record text) [
    | err e ↦ []
    | ok none ↦ []
    | ok (some last) ↦ last.hash
  ]

  unfoldable pub new_writer : FileSystem → Result Writer
  new_writer d = elim d.mkdir [
    | some e ↦ err (wrapf "trace writer: mkdir" [] e)
    | none ↦ elim d.open_file [
      | some e ↦ err (wrapf "trace writer: open" [] e)
      | none ↦
          ok (record {
            file = existing_text d.existing;
            buf = [];
            prev_hash = resume_hash d.existing;
          })
    ]
  ]

  -- The part of Write after ComputeHash.
  unfoldable pub hashed :
      Option Error → Option Error → Record → Writer → Result Str → Result (Unit {0}) × Writer
  hashed line newline linked w (err e) = (err (wrapf "trace writer: compute hash" [] e), w)
  hashed line newline linked w (ok h) =
      encoded line newline h w (c.marshal (record linked { hash = h }))

  -- `now` is the clock; `line` and `newline` are what the buffered writer answers to the two writes.
  unfoldable pub write :
      ℕ → Option Error → Option Error → Record → Writer → Result (Unit {0}) × Writer
  write now line newline rec w =
      let linked = stamp now w.prev_hash rec in hashed line newline linked w (compute_hash c linked)

-- Flush of Sync and Close.
unfoldable pub flush : Option Error → Writer → Result Writer
flush (some e) w = err e
flush none w = ok (record w { file = w.file ++ w.buf; buf = [] })

-- ===== src/Trace/Reader.antt =====
-- pkg/trace/reader.go: reading the records of a trace file, line by line.
use proxclt.Base.{
  ℕ, ◌*◌, ◌==◌, leb, Str, is_empty, itoa, true, false, if◌then◌else◌, Option, none, some, List, [],
  ◌∷◌, ◌++◌, length, Error, errorf, wrapf, Result, ok, err,
}
use proxclt.Trace.Schema.{Record, Codec, verify_chain}

-- The limit that NewReader sets for the buffer of the scanner; a line with its newline has to fit.
abbrev pub max_line : ℕ
max_line = 4 * 1024 * 1024

-- bufio.ScanLines, before it strips a carriage return; `word` is what was read of the line.
unfoldable pub lines_from : Str → Str → List Str
lines_from word [] = if is_empty word then [] else word ∷ []
lines_from word (a ∷ s) = elim (a == 10) [
  | true ↦ word ∷ lines_from [] s
  | false ↦ lines_from (word ++ a ∷ []) s
]

unfoldable pub drop_return : Str → Str
drop_return [] = []
drop_return (a ∷ []) = if a == 13 then [] else a ∷ []
drop_return (a ∷ b ∷ s) = a ∷ drop_return (b ∷ s)

module _ (c : Codec) where
  -- Next, called until it fails or the lines end: the records, and the error if there was one.
  unfoldable pub read_lines : List Str → List Record × Option Error
  read_lines [] = ([], none)
  read_lines (line ∷ rest) =
      let more = read_lines rest in
      if leb max_line (length line)
      then ([], some (errorf "bufio.Scanner: token too long" []))
      else if is_empty (drop_return line)
      then more
      else (elim (c.unmarshal (drop_return line)) [
        | err e ↦ ([], some (wrapf "trace reader: unmarshal" [] e))
        | ok r ↦ (r ∷ more.0, more.1)
      ])

  unfoldable pub read_all : Str → List Record × Option Error
  read_all text = read_lines (lines_from [] text)

  unfoldable pub checked : List Record × Option Error → List Record × Option Error
  checked (recs, some e) = (recs, some e)
  checked (recs, none) = elim (verify_chain c recs) [
    | none ↦ (recs, none)
    | some (i, e) ↦ (recs, some (wrapf "trace reader: (at record %d)" (itoa i ∷ []) e))
  ]

  -- `file` is the answer of os.Open with what the file holds.
  unfoldable pub load_all : Result Str → List Record × Option Error
  load_all (err e) = ([], some (wrapf "trace reader: open" [] e))
  load_all (ok text) = checked (read_all text)

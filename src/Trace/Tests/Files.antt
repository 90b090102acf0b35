-- ===== src/Trace/Tests/Files.antt =====
-- A session that appends the second record to a file with the first, and one after a blank line.
use proxclt.Base.{
  ℕ, Str, is_empty, none, some, [], ◌∷◌, ok, ◌≡◌, ◌≢◌, refl, ap, inr, arith, ◌<◌, length,
  ok-injective,
}
use proxclt.Trace.Schema.{compute_hash, verify_chain}
use proxclt.Trace.Chain.{Linked}
use proxclt.Trace.Lines.{render}
use proxclt.Trace.Writer.{
  Writer, last_line, drop_newline, until_newline, read_last_record, resume_hash, existing_text,
  new_writer, stamp, store, encoded, hashed, write, flush,
}
use proxclt.Trace.Reader.{max_line, load_all}
use proxclt.Trace.Holds.{Holds, IsLineOf}
use proxclt.Trace.Append.{stored, IsReading}
use proxclt.Trace.Session.{Session, load_all-Session}
use proxclt.Trace.Blank.{blank_line_breaks_chain}
use proxclt.Trace.Tests.Codec.{toy_codec, to_line, decode, to_line-back, toy_codec-IsLineCodec}
use proxclt.Trace.Tests.Chain.{first, second}

-- The line of the first record.
abbrev pub line_of_first : Str
line_of_first = 105 ∷ 100 ∷ 49 ∷ 105 ∷ 100 ∷ []

abbrev line_of_second : Str
line_of_second = 107 ∷ 103 ∷ 49 ∷ 105 ∷ 100 ∷ 49 ∷ 107 ∷ 103 ∷ 49 ∷ 105 ∷ 100 ∷ []

abbrev pub old_file : Str
old_file = render (line_of_first ∷ [])

abbrev opened_on : Str → Str → Writer
opened_on file prev = record { file = file; buf = []; prev_hash = prev }

abbrev before_write : Writer
before_write = opened_on old_file first.hash

abbrev after_write : Writer
after_write = record {
  file = old_file;
  buf = render (line_of_second ∷ []);
  prev_hash = second.hash;
}

abbrev after_sync : Writer
after_sync = opened_on (render (line_of_first ∷ line_of_second ∷ [])) second.hash

first_encoded : toy_codec.marshal first ≡ ok line_of_first
unfolding to_line
first_encoded = refl

first-IsLineOf : IsLineOf toy_codec first line_of_first
first-IsLineOf = record {
  line = toy_codec-IsLineCodec.line first line_of_first first_encoded;
  no_return = toy_codec-IsLineCodec.no_return first line_of_first first_encoded;
  decoded = to_line-back first line_of_first first_encoded;
  short = omega arith;
}

second-IsReading : IsReading toy_codec second second
second-IsReading = record {
  back = to_line-back second;
  version = refl;
  same_hash = refl;
  same_prev = refl;
  rehashed = refl;
}

second_encoded : (b : Str) → toy_codec.marshal second ≡ ok b → length b < max_line
unfolding to_line
second_encoded b e = omega (arith, ap (length {A = ℕ}) (ok-injective e))

first-Linked : Linked toy_codec [] (first ∷ [])
unfolding compute_hash to_line
first-Linked = (record { version = refl; hashed = refl }, refl, tt)

pub file-Holds : Holds toy_codec old_file (first ∷ [])
file-Holds = record {
  lines = line_of_first ∷ [];
  encoded = (first-IsLineOf, tt);
  rendered = refl;
  linked = first-Linked;
}

opens :
    new_writer toy_codec (record { mkdir = none; existing = some (ok old_file); open_file = none })
    ≡ ok before_write
unfolding new_writer existing_text resume_hash read_last_record last_line drop_newline until_newline
    is_empty decode
opens = refl

writes : write toy_codec 1 none none second before_write ≡ (ok tt, after_write)
unfolding write hashed encoded store stamp compute_hash to_line
writes = refl

syncs : flush none after_write ≡ ok after_sync
unfolding flush
syncs = refl

session : Session toy_codec toy_codec-IsLineCodec before_write (second ∷ []) after_sync
session =
    unfold stamp in
    Session.wrote 1 none none second second (inr refl) second_encoded second-IsReading writes
      (Session.synced syncs Session.done)

load_all-Session_example : load_all toy_codec (ok after_sync.file) ≡ (first ∷ second ∷ [], none)
load_all-Session_example =
    load_all-Session toy_codec toy_codec-IsLineCodec old_file (first ∷ []) (second ∷ [])
      before_write after_sync file-Holds opens session refl

-- The file with a blank line at its end.
abbrev spaced_file : Str
spaced_file = render (line_of_first ∷ [] ∷ [])

abbrev restarted : Writer
restarted = opened_on spaced_file []

abbrev rewritten : Writer
rewritten = record {
  file = spaced_file;
  buf = 107 ∷ 100 ∷ 49 ∷ 107 ∷ 100 ∷ 10 ∷ [];
  prev_hash = 49 ∷ 107 ∷ 100 ∷ [];
}

reopens :
    new_writer toy_codec
      (record { mkdir = none; existing = some (ok spaced_file); open_file = none })
    ≡ ok restarted
unfolding new_writer existing_text resume_hash read_last_record last_line drop_newline until_newline
    is_empty decode
reopens = refl

rewrites : write toy_codec 1 none none second restarted ≡ (ok tt, rewritten)
unfolding write hashed encoded store stamp compute_hash to_line
rewrites = refl

blank_line_breaks_chain_example :
    (load_all toy_codec (ok spaced_file) ≡ (first ∷ [], none))
    × (verify_chain toy_codec (first ∷ stored toy_codec 1 second restarted rewritten ∷ []) ≢ none)
blank_line_breaks_chain_example =
    blank_line_breaks_chain toy_codec first [] (line_of_first ∷ []) restarted rewritten
      (first-IsLineOf, tt) first-Linked (λ e. cc e) reopens 1 none none second rewrites

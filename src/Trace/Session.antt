-- ===== src/Trace/Session.antt =====
-- Sessions of the writer of pkg/trace: what was written is read back, and the chain holds.
use mathlib.Core.Path.{subst}
use proxclt.Base.{
  ℕ, Str, is_empty, Option, none, some, List, [], ◌∷◌, ◌++◌, append_assoc, append-nil, Error, ok,
  ok-injective, ◌≡◌, inl, refl, ap, sym, ◌∙◌, arith,
}
use proxclt.Trace.Schema.{Record, Codec}
use proxclt.Trace.Tamper.{end_hash}
use proxclt.Trace.Lines.{render, last_of, last_line-render}
use proxclt.Trace.Writer.{
  Writer, last_line, drop_newline, until_newline, read_last_record, resume_hash, existing_text,
  new_writer, write, flush,
}
use proxclt.Trace.Reader.{load_all}
use proxclt.Trace.Holds.{
  IsLineCodec, IsLineOf, Encodes, Encodes-IsLine, Holds, Stored, load_all-Holds,
}
use proxclt.Trace.Append.{stored, IsShort, IsCurrent, IsReading, write-Stored, flush-Stored}

module _ (c : Codec) (law : IsLineCodec c) where
  -- The last line of the file, where there is one, is that of the last record.
  last-Encodes :
      (r : Record) (rs : List Record) (b : Str) (bs : List Str)
      → Encodes c (r ∷ rs) (b ∷ bs)
      → (x : Record) × IsLineOf c x (last_of b bs) × (x.hash ≡ end_hash r.hash rs)
  last-Encodes r [] b [] e = (r, e.0, refl)
  last-Encodes r [] b (d ∷ bs) e = absurd e.1
  last-Encodes r (s ∷ rs) b [] e = absurd e.1
  last-Encodes r (s ∷ rs) b (d ∷ bs) e = last-Encodes s rs d bs e.1

  -- A writer that is opened on such a file resumes the chain at its last hash.
  resume_hash-Encodes :
      (rs : List Record) (bs : List Str)
      → Encodes c rs bs
      → resume_hash c (some (ok (render bs))) ≡ end_hash [] rs
  unfolding resume_hash read_last_record
  resume_hash-Encodes [] [] e = unfold last_line drop_newline until_newline is_empty in refl
  resume_hash-Encodes [] (b ∷ bs) e = absurd e
  resume_hash-Encodes (r ∷ rs) [] e = absurd e
  resume_hash-Encodes (r ∷ rs) (b ∷ bs) e =
      let (x, m, h) = last-Encodes r rs b bs e in
      ground (
        arith,
        h,
        last_line-render [] b bs (inl refl) (Encodes-IsLine c (r ∷ rs) (b ∷ bs) e),
        m.decoded,
        m.line.nonempty,
      )

  pub new_writer-Stored :
      (text : Str) (rs : List Record) (w : Writer)
      → Holds c text rs
      → new_writer c (record { mkdir = none; existing = some (ok text); open_file = none }) ≡ ok w
      → Stored c w rs
  unfolding new_writer existing_text
  new_writer-Stored text rs w h p =
      subst (λ x. Stored c x rs) (ok-injective p)
        (record {
          holds = record {
            lines = h.lines;
            encoded = h.encoded;
            rendered = append-nil text ∙ h.rendered;
            linked = h.linked;
          };
          resumed = rw h.rendered (resume_hash-Encodes rs h.lines h.encoded);
        })

  -- A session from one state of the writer to another, with what is read for the records that it
  -- stored: calls of Write that succeed, and of Sync.
  pub data Session : Writer → List Record → Writer → Type 0 where
    done : {w : Writer} → Session w [] w
    wrote :
        {w w₁ w₂ : Writer} {later : List Record} (now : ℕ) (line newline : Option Error)
        (rec read : Record)
        → IsCurrent c rec
        → IsShort c (stored c now rec w w₁)
        → IsReading c (stored c now rec w w₁) read
        → write c now line newline rec w ≡ (ok tt, w₁)
        → Session w₁ later w₂
        → Session w (read ∷ later) w₂
    synced :
        {w w₁ w₂ : Writer} {later : List Record}
        → flush none w ≡ ok w₁
        → Session w₁ later w₂
        → Session w later w₂

  Session-Stored :
      {w w' : Writer} {new : List Record}
      → Session w new w'
      → (rs : List Record) → Stored c w rs
      → Stored c w' (rs ++ new)
  Session-Stored done rs s = rw append-nil s
  Session-Stored {w} {w'} (wrote {w₁} {later} now line newline rec read v short k p rest) rs s =
      subst (λ x. Stored c w' x) (append_assoc rs (read ∷ []) later)
        (Session-Stored rest (rs ++ read ∷ [])
          (write-Stored c law now line newline rec read w w₁ rs s v short k p))
  Session-Stored {w} (synced {w₁} p rest) rs s = Session-Stored rest rs (flush-Stored c w w₁ rs s p)

  -- A writer is opened on a file whose lines are read as a chain of records; records of the current
  -- version or of none are written, each as a line short enough for the reader that is read with the
  -- same version and hashes, and the buffer is flushed. Then LoadAll returns the old records
  -- followed by the new ones, as their lines are read, and finds the chain of all of them intact.
  pub load_all-Session :
      (text : Str) (rs new : List Record) (w w' : Writer)
      → Holds c text rs
      → new_writer c (record { mkdir = none; existing = some (ok text); open_file = none }) ≡ ok w
      → Session w new w'
      → w'.buf ≡ []
      → load_all c (ok w'.file) ≡ (rs ++ new, none)
  load_all-Session text rs new w w' h opened run flushed =
      let s : Stored c w' (rs ++ new) =
        Session-Stored run rs (new_writer-Stored text rs w h opened) in
      load_all-Holds c w'.file (rs ++ new) (record {
        lines = s.holds.lines;
        encoded = s.holds.encoded;
        rendered =
            sym (append-nil w'.file)
            ∙ ap (λ (z : Str). w'.file ++ z) (sym flushed)
            ∙ s.holds.rendered;
        linked = s.holds.linked;
      })

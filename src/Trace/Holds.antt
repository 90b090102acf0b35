-- ===== src/Trace/Holds.antt =====
-- Trace files of pkg/trace that hold the lines of a chain of records: they are read back whole.
use proxclt.Base.{
  ◌<◌, Str, none, List, [], ◌∷◌, ◌++◌, All, All-append, append-nil, length, ok, ◌≡◌, refl, ap, sym,
  ◌∙◌, arith,
}
use proxclt.Trace.Schema.{Record, Codec}
use proxclt.Trace.Chain.{IsSound, Linked, verify_chain-Linked}
use proxclt.Trace.Tamper.{end_hash}
use proxclt.Trace.Lines.{IsLine, render, lines-render, IsPlain, All-plain}
use proxclt.Trace.Writer.{Writer, contents}
use proxclt.Trace.Reader.{max_line, drop_return, read_lines, read_all, checked, load_all}

-- What encoding/json is asked for: one line, which does not end in a carriage return.
pub record IsLineCodec (c : Codec) : Type 0 where
  pub line : (r : Record) (b : Str) → c.marshal r ≡ ok b → IsLine b
  pub no_return : (r : Record) (b : Str) → c.marshal r ≡ ok b → drop_return b ≡ b

module _ (c : Codec) where
  -- A line that is read as the record, short enough for the reader.
  pub record IsLineOf (r : Record) (b : Str) : Type 0 where
    pub line : IsLine b
    pub no_return : drop_return b ≡ b
    pub decoded : c.unmarshal b ≡ ok r
    pub short : length b < max_line

  -- The lines are read as the records.
  abbrev pub Encodes : List Record → List Str → Type 0
  Encodes [] [] = Unit
  Encodes [] (b ∷ bs) = ⊥
  Encodes (r ∷ rs) [] = ⊥
  Encodes (r ∷ rs) (b ∷ bs) = IsLineOf r b × Encodes rs bs

  pub Encodes-append :
      (rs : List Record) (bs : List Str) (r : Record) (b : Str)
      → Encodes rs bs
      → IsLineOf r b
      → Encodes (rs ++ r ∷ []) (bs ++ b ∷ [])
  Encodes-append [] [] r b e m = (m, tt)
  Encodes-append [] (b' ∷ bs) r b e m = absurd e
  Encodes-append (r' ∷ rs) [] r b e m = absurd e
  Encodes-append (r' ∷ rs) (b' ∷ bs) r b e m = (e.0, Encodes-append rs bs r b e.1 m)

  pub Linked-append :
      (before : Str) (rs : List Record) (r : Record)
      → Linked c before rs
      → IsSound c r
      → r.prev_hash ≡ end_hash before rs
      → Linked c before (rs ++ r ∷ [])
  Linked-append before [] r l s p = (s, p, tt)
  Linked-append before (x ∷ rs) r l s p = (l.0, l.1, Linked-append x.hash rs r l.2 s p)

  pub end_hash-append :
      (before : Str) (rs : List Record) (r : Record) → end_hash before (rs ++ r ∷ []) ≡ r.hash
  end_hash-append before [] r = refl
  end_hash-append before (x ∷ rs) r = end_hash-append x.hash rs r

  -- The file holds exactly the lines of these records, and they form a chain.
  pub record Holds (text : Str) (rs : List Record) : Type 0 where
    pub lines : List Str
    pub encoded : Encodes rs lines
    pub rendered : text ≡ render lines
    pub linked : Linked c [] rs

  -- A writer whose contents are these records and that is ready for the next.
  pub record Stored (w : Writer) (rs : List Record) : Type 0 where
    pub holds : Holds (contents w) rs
    pub resumed : w.prev_hash ≡ end_hash [] rs

  pub Encodes-IsLine : (rs : List Record) (bs : List Str) → Encodes rs bs → All IsLine bs
  Encodes-IsLine [] [] e = tt
  Encodes-IsLine [] (b ∷ bs) e = absurd e
  Encodes-IsLine (r ∷ rs) [] e = absurd e
  Encodes-IsLine (r ∷ rs) (b ∷ bs) e = (e.0.line, Encodes-IsLine rs bs e.1)

  -- The reader finds the records of the lines; `tail` stands for lines that it skips.
  pub read_lines-Encodes :
      (rs : List Record) (bs tail : List Str)
      → Encodes rs bs
      → read_lines c tail ≡ ([], none)
      → read_lines c (bs ++ tail) ≡ (rs, none)
  unfolding read_lines
  read_lines-Encodes [] [] tail e t = t
  read_lines-Encodes [] (b ∷ bs) tail e t = absurd e
  read_lines-Encodes (r ∷ rs) [] tail e t = absurd e
  read_lines-Encodes (r ∷ rs) (b ∷ bs) tail e t = ground (
    arith,
    e.0.short,
    e.0.no_return,
    e.0.decoded,
    e.0.line.nonempty,
    read_lines-Encodes rs bs tail e.1 t,
  )

  -- Lines that end in a skipped part are read whole, and the chain of what is read is intact.
  pub load_all-lines :
      (rs : List Record) (bs tail : List Str)
      → Encodes rs bs
      → Linked c [] rs
      → read_lines c tail ≡ ([], none)
      → All IsPlain tail
      → load_all c (ok (render (bs ++ tail))) ≡ (rs, none)
  unfolding load_all read_all checked
  load_all-lines rs bs tail e l t p =
      rw
        (
          lines-render (bs ++ tail)
              (All-append IsPlain bs tail (All-plain bs (Encodes-IsLine rs bs e)) p),
          read_lines-Encodes rs bs tail e t,
        )
        (rw (checked, (verify_chain-Linked c rs).1 l))

  -- A file of such records is read back whole, and the chain of what is read is intact.
  pub load_all-Holds :
      (text : Str) (rs : List Record) → Holds text rs → load_all c (ok text) ≡ (rs, none)
  load_all-Holds text rs h =
      ap (λ (z : Str). load_all c (ok z)) (h.rendered ∙ ap render (sym (append-nil h.lines)))
      ∙ load_all-lines rs h.lines [] h.encoded h.linked (unfold read_lines in refl) tt

-- ===== src/Trace/Blank.antt =====
-- A blank line at the end of a trace file of pkg/trace: the reader skips it, and the writer loses the
-- chain.
use proxclt.Base.{
  ℕ, Str, Option, none, some, List, [], ◌∷◌, ◌++◌, Error, ok, is_empty, ok-injective, append_assoc,
  ◌≡◌, ◌≢◌, refl, ap, sym, ◌∙◌, arith,
}
use proxclt.Trace.Schema.{Record, Codec, verify_chain}
use proxclt.Trace.Chain.{Linked, verify_chain-Linked}
use proxclt.Trace.Tamper.{end_hash}
use proxclt.Trace.Lines.{render, render-append, render-EndsLine, last_line-blank}
use proxclt.Trace.Writer.{Writer, read_last_record, resume_hash, new_writer, stamp, write}
use proxclt.Trace.Reader.{drop_return, read_lines, load_all}
use proxclt.Trace.Holds.{Encodes, load_all-lines}
use proxclt.Trace.Append.{stored}

module _ (c : Codec) where
  Linked-end :
      (before : Str) (rs : List Record) (r : Record)
      → Linked c before (rs ++ r ∷ [])
      → r.prev_hash ≡ end_hash before rs
  Linked-end before [] r l = l.1
  Linked-end before (x ∷ rs) r l = Linked-end x.hash rs r l.2

  resume_hash-blank : (s : Str) → resume_hash c (some (ok (s ++ (10 ∷ 10 ∷ [])))) ≡ []
  unfolding resume_hash read_last_record is_empty
  resume_hash-blank s = ground (arith, last_line-blank s)

  blank_text :
      (r : Record) (rs : List Record) (bs : List Str)
      → Encodes c (r ∷ rs) bs
      → (p : Str) × (render (bs ++ [] ∷ []) ≡ p ++ (10 ∷ 10 ∷ []))
  blank_text r rs [] e = absurd e
  blank_text r rs (b ∷ bs) e =
      let (p, q) = render-EndsLine b bs in
      (
        p,
        render-append (b ∷ bs) ([] ∷ [])
            ∙ ap (λ (z : Str). z ++ 10 ∷ []) q
            ∙ append_assoc p (10 ∷ []) (10 ∷ []),
      )

  -- The lines of a file are read as a chain of records, the last with a hash, and a blank line
  -- follows them. LoadAll
  -- accepts it; but a writer that is opened on it starts from the empty hash, so that after the next
  -- successful Write the records are no chain.
  pub blank_line_breaks_chain :
      (r : Record) (rs : List Record) (bs : List Str) (w w' : Writer)
      → Encodes c (r ∷ rs) bs
      → Linked c [] (r ∷ rs)
      → end_hash [] (r ∷ rs) ≢ []
      → new_writer c
          (record { mkdir = none; existing = some (ok (render (bs ++ [] ∷ []))); open_file = none })
        ≡ ok w
      → (now : ℕ) (line newline : Option Error) (rec : Record)
      → write c now line newline rec w ≡ (ok tt, w')
      → (load_all c (ok (render (bs ++ [] ∷ []))) ≡ (r ∷ rs, none))
        × (verify_chain c ((r ∷ rs) ++ stored c now rec w w' ∷ []) ≢ none)
  unfolding new_writer
  blank_line_breaks_chain r rs bs w w' e l hashed opened now line newline rec wrote = (
    load_all-lines c (r ∷ rs) bs ([] ∷ []) e l (unfold read_lines drop_return is_empty in refl)
        (tt, tt),
    λ v. hashed (
        sym (Linked-end [] (r ∷ rs) (stored c now rec w w') ((verify_chain-Linked c _).0 v))
        ∙ unfold stamp in opened-blank),
  )
    where
      opened-blank : w.prev_hash ≡ []
      opened-blank =
          let (p, q) = blank_text r rs bs e in
          sym (ap (λ (x : Writer). x.prev_hash) (ok-injective opened))
          ∙ ap (λ (z : Str). resume_hash c (some (ok z))) q
          ∙ resume_hash-blank p

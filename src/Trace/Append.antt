-- ===== src/Trace/Append.antt =====
-- One call of Write or Sync of pkg/trace/writer.go on a file that holds a chain of records.
use mathlib.Core.Path.{subst, ap₂}
use proxclt.Base.{
  ℕ, ◌<◌, Str, Option, none, some, List, [], ◌∷◌, ◌++◌, append_assoc, append-nil, length, Error,
  Result, ok, err, ok-injective, ◌≡◌, ◌⊎◌, refl, ap, sym, ◌∙◌, arith,
}
use proxclt.Trace.Schema.{Record, Codec, compute_hash, current_schema_version}
use proxclt.Trace.Chain.{IsSound}
use proxclt.Trace.Lines.{render-append}
use proxclt.Trace.Writer.{Writer, stamp, store, encoded, hashed, write, flush}
use proxclt.Trace.Reader.{max_line}
use proxclt.Trace.Holds.{IsLineCodec, Encodes-append, Linked-append, end_hash-append, Stored}

module _ (c : Codec) where
  -- The record that a successful Write leaves in the trace.
  abbrev pub stored : ℕ → Record → Writer → Writer → Record
  stored now rec w w' = record (stamp now w.prev_hash rec) { hash = w'.prev_hash }

  abbrev pub IsShort : Record → Type 0
  IsShort r = (b : Str) → c.marshal r ≡ ok b → length b < max_line

  -- What a successful Write did.
  pub record Written (now : ℕ) (rec : Record) (w w' : Writer) : Type 0 where
    text : Str
    hashed : compute_hash c (stored now rec w w') ≡ ok w'.prev_hash
    encoded : c.marshal (stored now rec w w') ≡ ok text
    file : w'.file ≡ w.file
    buf : w'.buf ≡ w.buf ++ (text ++ 10 ∷ [])

  abbrev after : Writer → Str → Str → Writer
  after w b h = record w { buf = w.buf ++ (b ++ 10 ∷ []); prev_hash = h }

  store-ok :
      (line newline : Option Error) (b h : Str) (w w' : Writer)
      → store line newline b h w ≡ (ok tt, w')
      → after w b h ≡ w'
  unfolding store
  store-ok (some e) newline b h w w' p = cc
  store-ok none (some e) b h w w' p = cc
  store-ok none none b h w w' p = cc

  encoded-ok :
      (line newline : Option Error) (h : Str) (w w' : Writer) (x : Result Str)
      → encoded line newline h w x ≡ (ok tt, w')
      → (b : Str) × (x ≡ ok b) × (after w b h ≡ w')
  unfolding encoded
  encoded-ok line newline h w w' (err e) p = cc
  encoded-ok line newline h w w' (ok b) p = (b, refl, store-ok line newline b h w w' p)

  hashed-ok :
      (line newline : Option Error) (r : Record) (w w' : Writer) (x : Result Str)
      → hashed c line newline r w x ≡ (ok tt, w')
      → (h b : Str) × (x ≡ ok h) × (c.marshal (record r { hash = h }) ≡ ok b) × (after w b h ≡ w')
  unfolding hashed
  hashed-ok line newline r w w' (err e) p = cc
  hashed-ok line newline r w w' (ok h) p =
      let (b, m, q) = encoded-ok line newline h w w' (c.marshal (record r { hash = h })) p in
      (h, b, refl, m, q)

  pub write-Written :
      (now : ℕ) (line newline : Option Error) (rec : Record) (w w' : Writer)
      → write c now line newline rec w ≡ (ok tt, w')
      → Written now rec w w'
  unfolding write compute_hash
  write-Written now line newline rec w w' p =
      let (h, b, e, m, q) =
        hashed-ok line newline (stamp now w.prev_hash rec) w w'
          (compute_hash c (stamp now w.prev_hash rec)) p in
      subst (Written now rec w) q
        (record { text = b; hashed = e; encoded = m; file = refl; buf = refl })

  -- The schema versions that Write turns into the current one.
  abbrev pub IsCurrent : Record → Type 0
  IsCurrent rec = (rec.schema_version ≡ 0) ⊎ (rec.schema_version ≡ current_schema_version)

  -- What the line of a record is read as: a record with the same hashes, the same version and the same
  -- hash of its contents. It may differ in how its input and output are written, of which the
  -- encoder prints one form.
  pub record IsReading (r read : Record) : Type 0 where
    pub back : (b : Str) → c.marshal r ≡ ok b → c.unmarshal b ≡ ok read
    pub version : read.schema_version ≡ r.schema_version
    pub same_hash : read.hash ≡ r.hash
    pub same_prev : read.prev_hash ≡ r.prev_hash
    pub rehashed : compute_hash c read ≡ compute_hash c r

  stored-IsSound :
      (now : ℕ) (rec read : Record) (w w' : Writer)
      → IsCurrent rec
      → Written now rec w w'
      → IsReading (stored now rec w w') read
      → IsSound c read
  unfolding stamp
  stored-IsSound now rec read w w' v x k = record {
    version = k.version ∙ ground arith;
    hashed = k.rehashed ∙ x.hashed ∙ ap ok (sym k.same_hash);
  }

  -- Write appends its record to those of the file and links it to them.
  pub write-Stored :
      IsLineCodec c
      → (now : ℕ) (line newline : Option Error) (rec read : Record) (w w' : Writer)
        (rs : List Record)
      → Stored c w rs
      → IsCurrent rec
      → IsShort (stored now rec w w')
      → IsReading (stored now rec w w') read
      → write c now line newline rec w ≡ (ok tt, w')
      → Stored c w' (rs ++ read ∷ [])
  write-Stored law now line newline rec read w w' rs s v short k p =
      let x : Written now rec w w' = write-Written now line newline rec w w' p in
      record {
        holds = record {
          lines = s.holds.lines ++ x.text ∷ [];
          encoded = Encodes-append c rs s.holds.lines read x.text s.holds.encoded (record {
            line = law.line (stored now rec w w') x.text x.encoded;
            no_return = law.no_return (stored now rec w w') x.text x.encoded;
            decoded = k.back x.text x.encoded;
            short = short x.text x.encoded;
          });
          rendered =
              ap₂ ◌++◌ x.file x.buf
              ∙ sym (append_assoc w.file w.buf (x.text ++ 10 ∷ []))
              ∙ ap (λ (z : Str). z ++ (x.text ++ 10 ∷ [])) s.holds.rendered
              ∙ sym (render-append s.holds.lines (x.text ∷ []));
          linked =
              Linked-append c [] rs read s.holds.linked (stored-IsSound now rec read w w' v x k)
                (k.same_prev ∙ unfold stamp in s.resumed);
        };
        resumed = sym k.same_hash ∙ sym (end_hash-append c [] rs read);
      }

  pub flush-Stored :
      (w w' : Writer) (rs : List Record) → Stored c w rs → flush none w ≡ ok w' → Stored c w' rs
  unfolding flush
  flush-Stored w w' rs s p =
      subst (λ x. Stored c x rs) (ok-injective p)
        (record {
          holds = record {
            lines = s.holds.lines;
            encoded = s.holds.encoded;
            rendered = append-nil (w.file ++ w.buf) ∙ s.holds.rendered;
            linked = s.holds.linked;
          };
          resumed = s.resumed;
        })

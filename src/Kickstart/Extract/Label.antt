-- ===== src/Kickstart/Extract/Label.antt =====
-- The volume label that ReadVolumeLabel of pkg/kickstart/iso_extractor.go finds.
use mathlib.Core.List.{reverse, reverse-append, reverse-reverse}
use proxclt.Base.{
  ℕ, leb, length, Str, lit, is_empty, trim_space-marks, trim_space-blank, is_space, cut_byte,
  has_prefix, true, false, none, some, List, [], ◌∷◌, ◌++◌, All, ok, ◌≡◌, refl, sym, ap, ◌∙◌,
}
use proxclt.Config.Model.{Dict}
use proxclt.Trace.Reader.{drop_return, lines_from}
use proxclt.Kickstart.Disk.{Machine, DiskState, File}
use proxclt.Kickstart.Extract.{
  is_quote, drop_quotes, trim_quotes, label_in, label_of, max_token, first_label, read_volume_label,
}

-- A label whose ends are no quotes.
pub record IsLabel (label : Str) : Type 0 where
  pub first : ℕ
  pub rest : Str
  pub begins : label ≡ first ∷ rest
  pub no_quote : is_quote first ≡ false
  pub init : Str
  pub last : ℕ
  pub ends : label ≡ init ++ last ∷ []
  pub no_quote_last : is_quote last ≡ false

drop_quotes-mark : (c : ℕ) (s : Str) → is_quote c ≡ false → drop_quotes (c ∷ s) ≡ c ∷ s
unfolding drop_quotes
drop_quotes-mark c s h = rw (h, drop_quotes) refl

reverse-mark : (s : Str) (c : ℕ) → reverse (s ++ c ∷ []) ≡ c ∷ reverse s
reverse-mark s c = reverse-append s (c ∷ [])

drop_reversed : (label : Str) → IsLabel label → drop_quotes (reverse label) ≡ reverse label
drop_reversed label l =
    ap (λ t. drop_quotes (reverse t)) l.ends
    ∙ ap drop_quotes (reverse-mark l.init l.last)
    ∙ drop_quotes-mark l.last (reverse l.init) l.no_quote_last
    ∙ sym (reverse-mark l.init l.last)
    ∙ ap reverse (sym l.ends)

trim_quotes-quoted : (label : Str) → IsLabel label → trim_quotes (39 ∷ label ++ 39 ∷ []) ≡ label
unfolding trim_quotes drop_quotes is_quote
trim_quotes-quoted label l =
    ap (λ t. reverse (drop_quotes (reverse (drop_quotes (t ++ 39 ∷ []))))) l.begins
    ∙ ap (λ t. reverse (drop_quotes (reverse t)))
        (drop_quotes-mark l.first (l.rest ++ 39 ∷ []) l.no_quote)
    ∙ ap (λ t. reverse (drop_quotes (reverse (t ++ 39 ∷ [])))) (sym l.begins)
    ∙ ap (λ t. reverse (drop_quotes t)) (reverse-mark label 39)
    ∙ ap reverse (drop_reversed label l)
    ∙ reverse-reverse label

-- The line of xorriso that names the label, in quotes.
abbrev pub label_line : Str → Str
label_line label = lit "Volume id    : '" ++ label ++ lit "'"

label_of-line : (label : Str) → IsLabel label → label_of (label_line label) ≡ label
unfolding label_of label_in lit has_prefix cut_byte is_space
label_of-line label l =
    ap label_in (trim_space-marks b'V' (lit "olume id    : '" ++ label) b'\'' refl refl)
    ∙ ap trim_quotes
        (trim_space-blank (39 ∷ label ++ 39 ∷ []) ∙ trim_space-marks 39 label 39 refl refl)
    ∙ trim_quotes-quoted label l

drop_return-quote : (s : Str) → drop_return (s ++ 39 ∷ []) ≡ s ++ 39 ∷ []
unfolding drop_return
drop_return-quote [] = refl
drop_return-quote (a ∷ []) = refl
drop_return-quote (a ∷ b ∷ s) = ap (λ t. a ∷ t) (drop_return-quote (b ∷ s))

label_found : (label : Str) → IsLabel label → label_of (drop_return (label_line label)) ≡ label
unfolding lit
label_found label l =
    ap label_of (drop_return-quote (lit "Volume id    : '" ++ label)) ∙ label_of-line label l

-- A line that fits and names no label.
abbrev pub IsQuiet : Str → Type 0
IsQuiet line =
    (leb max_token (length line) ≡ false) × (is_empty (label_of (drop_return line)) ≡ true)

first_label-line :
    (label : Str) (before after : List Str)
    → IsLabel label
    → leb max_token (length (label_line label)) ≡ false
    → All IsQuiet before
    → first_label (before ++ label_line label ∷ after) ≡ some label
unfolding first_label
first_label-line label [] after l short quiet =
    let full : is_empty label ≡ false = ap is_empty l.begins ∙ unfold is_empty in refl in
    rw (short, label_found label l, full) refl
first_label-line label (line ∷ before) after l short quiet =
    rw (quiet.0.0, quiet.0.1) (first_label-line label before after l short quiet.1)

-- Where xorriso lists an ISO and the first line of its output that names a label is the one for
-- `label` in quotes, which the label itself neither begins nor ends with, and the lines up to it fit
-- the scanner, ReadVolumeLabel returns the label.
pub read_volume_label-line :
    (m : Machine) (d : DiskState) (iso label out : Str) (before after : List Str)
    (files : Dict File)
    → is_empty iso ≡ false
    → m.stat d.files iso ≡ none
    → m.look_path (lit "xorriso") ≡ none
    → m.run (lit "xorriso") (lit "-indev" ∷ iso ∷ []) d.files ≡ (none, out, files)
    → lines_from [] out ≡ before ++ label_line label ∷ after
    → IsLabel label
    → leb max_token (length (label_line label)) ≡ false
    → All IsQuiet before
    → read_volume_label iso m d ≡ (ok label, record d { files = files })
unfolding read_volume_label
read_volume_label-line m d iso label out before after files named there_is found listed lines l
      short quiet =
    rw (named, there_is, found, listed, lines, first_label-line label before after l short quiet)
      refl

-- ===== src/Kickstart/Tests/Label.antt =====
-- The output of xorriso for an ISO with a label.
use proxclt.Base.{Str, lit, is_empty, trim_space, has_prefix, none, [], ◌∷◌, ok, ◌≡◌, refl}
use proxclt.Trace.Reader.{drop_return, lines_from}
use proxclt.Kickstart.Disk.{Machine, DiskState}
use proxclt.Kickstart.Extract.{is_quote, label_of, read_volume_label}
use proxclt.Kickstart.Extract.Label.{IsLabel, IsQuiet, read_volume_label-line}
use proxclt.Kickstart.Tests.Iso.{machine}

abbrev output : Str
output = lit "xorriso 1.5.6\nVolume id    : 'OL-9-4'\nMedia blocks"

abbrev lister : Machine
lister = record machine { run = λ program args files. (none, output, files) }

abbrev empty_disk : DiskState
empty_disk = record { files = []; events = [] }

ol9-IsLabel : IsLabel (lit "OL-9-4")
unfolding lit is_quote
ol9-IsLabel = record {
  first = b'O';
  rest = lit "L-9-4";
  begins = refl;
  no_quote = refl;
  init = lit "OL-9-";
  last = b'4';
  ends = refl;
  no_quote_last = refl;
}

banner-IsQuiet : IsQuiet (lit "xorriso 1.5.6")
unfolding lit label_of drop_return is_empty trim_space has_prefix
banner-IsQuiet = (refl, refl)

read_volume_label-line_example :
    read_volume_label (lit "ol9.iso") lister empty_disk
    ≡ (ok (lit "OL-9-4"), record empty_disk { files = [] })
unfolding lit lines_from is_empty
read_volume_label-line_example =
    read_volume_label-line lister empty_disk (lit "ol9.iso") (lit "OL-9-4") output
      (lit "xorriso 1.5.6" ∷ []) (lit "Media blocks" ∷ []) [] refl refl refl refl refl ol9-IsLabel
      refl (banner-IsQuiet, tt)

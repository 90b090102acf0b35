-- ===== src/Config/Tests/Walk.antt =====
-- A struct with a string, a map of structs and a map of `any`.
use proxclt.Base.{Str, lit, [], ◌∷◌, ◌≡◌, refl}
use proxclt.Config.Walk.{
  Tree, pointer, boxed, structure, slice, mapping, text, end, field, settable, walk_strings,
  walk_from,
}
use proxclt.Config.Walk.Strings.{
  map_strings, is_open, walk_from-eq-map_strings, items, walk_strings-list,
}

-- Puts a mark before a string.
abbrev marked : Str → Str
marked s = 33 ∷ s

abbrev config : Tree
config = structure (
    field (lit "Kind") (text (lit "linux")) (
      field (lit "Nodes")
        (mapping (field (lit "a") (structure (field (lit "Host") (text (lit "h")) end)) end))
        (field (lit "Raw") (mapping (field (lit "tz") (boxed (text (lit "UTC"))) end)) end)))

walk_from-eq-map_strings_example :
    walk_from marked (pointer config) ≡ map_strings marked (pointer config)
unfolding is_open
walk_from-eq-map_strings_example = walk_from-eq-map_strings marked config refl

walk_strings-list_example :
    walk_strings marked settable
      (mapping (field (lit "dns") (boxed (slice (items (lit "a" ∷ lit "b" ∷ [])))) end))
    ≡ mapping (field (lit "dns") (boxed (slice (items (lit "a" ∷ lit "b" ∷ [])))) end)
walk_strings-list_example = walk_strings-list marked settable (lit "dns") (lit "a" ∷ lit "b" ∷ [])

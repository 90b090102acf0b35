-- ===== src/Config/Walk.antt =====
-- walkStrings, transformMapValue and resolveRefPath of pkg/config/resolver.go, on the values that the
-- package reflect shows them.
pub mod Strings
use proxclt.Base.{
  String, Str, equal_fold, str_eq, Bool, true, false, if◌then◌else◌, Option, none, some, List, [],
  ◌∷◌, errorf, Error, Result, ok, err,
}

-- A reflect.Value by its kind: a nil pointer or interface, the others of these, a struct with the names
-- of its fields, a slice, an array, a map with string keys, a string, and any other kind with its
-- text under %v. `hidden` is a field that is not exported, in which reflection sets nothing, at any
-- depth; the types of pkg/config have none, and that the walk panics on a map in one is not modelled.
mutual
  pub data Tree : Type 0 where
    nothing : Tree
    pointer : Tree → Tree
    boxed : Tree → Tree
    structure : Fields → Tree
    slice : Fields → Tree
    array : Fields → Tree
    mapping : Fields → Tree
    text : Str → Tree
    scalar : Str → Tree

  pub data Fields : Type 0 where
    end : Fields
    field : Str → Tree → Fields → Fields
    hidden : Str → Tree → Fields → Fields

-- Whether a value can be set in place: one behind a pointer or in a slice can, one in an interface
-- cannot, and transformMapValue takes a copy of a value of a map, the content of an interface
-- included, that can.
pub data Access : Type 0 where
  settable fixed map_value : Access

unfoldable pub content_mode : Access → Access
content_mode settable = fixed
content_mode fixed = fixed
content_mode map_value = settable

unfoldable pub part_mode : Access → Access
part_mode settable = settable
part_mode fixed = fixed
part_mode map_value = settable

unfoldable pub replaced : (Str → Str) → Access → Str → Str
replaced fn settable s = fn s
replaced fn fixed s = s
replaced fn map_value s = fn s

-- walkStrings, and transformMapValue in the mode for the values of a map; to set a value that stays
-- as it was changes nothing.
unfoldable mutual
  unfolding content_mode part_mode replaced

  pub walk_strings : (Str → Str) → Access → Tree → Tree
  walk_strings fn mode nothing = nothing
  walk_strings fn mode (pointer t) = pointer (walk_strings fn settable t)
  walk_strings fn mode (boxed t) = boxed (walk_strings fn (content_mode mode) t)
  walk_strings fn mode (structure fs) = structure (walk_fields fn (part_mode mode) fs)
  walk_strings fn mode (slice fs) = slice (walk_fields fn settable fs)
  walk_strings fn mode (array fs) = array (walk_fields fn (part_mode mode) fs)
  walk_strings fn mode (mapping fs) = mapping (walk_fields fn map_value fs)
  walk_strings fn mode (text s) = text (replaced fn mode s)
  walk_strings fn mode (scalar s) = scalar s

  pub walk_fields : (Str → Str) → Access → Fields → Fields
  walk_fields fn mode end = end
  walk_fields fn mode (hidden k t rest) = hidden k t (walk_fields fn mode rest)
  walk_fields fn mode (field k t rest) = field k (walk_strings fn mode t) (walk_fields fn mode rest)

-- The walk of ResolvePlaceholders, from reflect.ValueOf: a value that cannot be set itself.
unfoldable pub walk_from : (Str → Str) → Tree → Tree
unfolding walk_strings
walk_from fn t = walk_strings fn fixed t

-- The value behind pointers and interfaces, or none at a nil.
unfoldable pub behind : Tree → Option Tree
behind nothing = none
behind (pointer t) = behind t
behind (boxed t) = behind t
behind t = some t

-- FieldByNameFunc, for names that differ by more than case
unfoldable pub field_named : Str → Fields → Option Tree
unfolding equal_fold
field_named name end = none
field_named name (hidden k t rest) =
    let later = field_named name rest in if equal_fold k name then some t else later
field_named name (field k t rest) =
    let later = field_named name rest in if equal_fold k name then some t else later

unfoldable pub entry_of : Str → Fields → Option Tree
unfolding str_eq
entry_of key end = none
entry_of key (hidden k t rest) = entry_of key rest
entry_of key (field k t rest) =
    let later = entry_of key rest in if str_eq k key then some t else later

unfoldable pub step_into : Str → Str → Option Tree → Result Tree
unfolding field_named entry_of
step_into path p none = err (errorf "ref %q: nil along path" (path ∷ []))
step_into path p (some (structure fs)) = elim (field_named p fs) [
  | none ↦ err (errorf "ref %q: no field %q" (path ∷ p ∷ []))
  | some t ↦ ok t
]
step_into path p (some (mapping fs)) = elim (entry_of p fs) [
  | none ↦ err (errorf "ref %q: no map key %q" (path ∷ p ∷ []))
  | some t ↦ ok t
]
step_into path p (some t) = err (errorf "ref %q: cannot traverse %s" (path ∷ []))

shown : (Tree → Str) → Str → Option Tree → Result Str
shown format path none = err (errorf "ref %q: nil value" (path ∷ []))
shown format path (some t) = ok (format t)

abbrev stepped : Result Tree → (Tree → Result Str) → Result Str
stepped (err e) rest = err e
stepped (ok t) rest = rest t

-- resolveRefPath, for the parts of the path; `format` is Sprintf with %v.
unfoldable pub resolve_ref_path : (Tree → Str) → Str → List Str → Tree → Result Str
unfolding behind step_into shown
resolve_ref_path format path [] t = shown format path (behind t)
resolve_ref_path format path (p ∷ parts) t =
    stepped (step_into path p (behind t)) (resolve_ref_path format path parts)

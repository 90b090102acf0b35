-- ===== src/Config/Walk/Strings.antt =====
-- Which strings walkStrings of pkg/config/resolver.go replaces.
use proxclt.Base.{Str, Bool, true, false, ◌&&◌, List, [], ◌∷◌, ◌≡◌, refl, ap}
use mathlib.Core.Path.{ap₂}
use proxclt.Config.Walk.{
  Tree, nothing, pointer, boxed, structure, slice, array, mapping, text, scalar, Fields, end, field,
  hidden, walk_from, Access, settable, fixed, map_value, content_mode, part_mode, replaced,
  walk_strings, walk_fields,
}

-- The walk that replaces every string of exported fields.
unfoldable mutual
  pub map_strings : (Str → Str) → Tree → Tree
  map_strings fn nothing = nothing
  map_strings fn (pointer t) = pointer (map_strings fn t)
  map_strings fn (boxed t) = boxed (map_strings fn t)
  map_strings fn (structure fs) = structure (map_fields fn fs)
  map_strings fn (slice fs) = slice (map_fields fn fs)
  map_strings fn (array fs) = array (map_fields fn fs)
  map_strings fn (mapping fs) = mapping (map_fields fn fs)
  map_strings fn (text s) = text (fn s)
  map_strings fn (scalar s) = scalar s

  map_fields : (Str → Str) → Fields → Fields
  map_fields fn end = end
  map_fields fn (hidden k t rest) = hidden k t (map_fields fn rest)
  map_fields fn (field k t rest) = field k (map_strings fn t) (map_fields fn rest)

-- In which values every string can be replaced, said of the values alone. `is_open`: behind a pointer or
-- in a slice. `is_bare`: in an interface, where no string may stand that is not behind another
-- pointer, slice or map. `is_entry`: a value of a map, of which a copy is made, so that an
-- interface around it does no harm.
unfoldable mutual
  pub is_open : Tree → Bool
  is_open nothing = true
  is_open (pointer t) = is_open t
  is_open (boxed t) = is_bare t
  is_open (structure fs) = are_open fs
  is_open (slice fs) = are_open fs
  is_open (array fs) = are_open fs
  is_open (mapping fs) = are_entries fs
  is_open (text s) = true
  is_open (scalar s) = true

  pub is_bare : Tree → Bool
  is_bare nothing = true
  is_bare (pointer t) = is_open t
  is_bare (boxed t) = is_bare t
  is_bare (structure fs) = are_bare fs
  is_bare (slice fs) = are_open fs
  is_bare (array fs) = are_bare fs
  is_bare (mapping fs) = are_entries fs
  is_bare (text s) = false
  is_bare (scalar s) = true

  pub is_entry : Tree → Bool
  is_entry nothing = true
  is_entry (pointer t) = is_open t
  is_entry (boxed t) = is_open t
  is_entry (structure fs) = are_open fs
  is_entry (slice fs) = are_open fs
  is_entry (array fs) = are_open fs
  is_entry (mapping fs) = are_entries fs
  is_entry (text s) = true
  is_entry (scalar s) = true

  are_open : Fields → Bool
  are_open end = true
  are_open (field k t rest) = is_open t && are_open rest
  are_open (hidden k t rest) = are_open rest

  are_bare : Fields → Bool
  are_bare end = true
  are_bare (field k t rest) = is_bare t && are_bare rest
  are_bare (hidden k t rest) = are_bare rest

  are_entries : Fields → Bool
  are_entries end = true
  are_entries (field k t rest) = is_entry t && are_entries rest
  are_entries (hidden k t rest) = are_entries rest

-- The test for each way in which a value is reached.
allows : Access → Tree → Bool
allows settable t = is_open t
allows fixed t = is_bare t
allows map_value t = is_entry t

allows_all : Access → Fields → Bool
allows_all settable fs = are_open fs
allows_all fixed fs = are_bare fs
allows_all map_value fs = are_entries fs

both : (a b : Bool) → a && b ≡ true → (a ≡ true) × (b ≡ true)
both true b h = (refl, h)
both false b h = cc h

allows_all-field :
    (mode : Access) (k : Str) (t : Tree) (rest : Fields)
    → allows_all mode (field k t rest) ≡ true
    → (allows mode t ≡ true) × (allows_all mode rest ≡ true)
unfolding allows allows_all is_open
allows_all-field settable k t rest h = both (is_open t) (are_open rest) h
allows_all-field fixed k t rest h = both (is_bare t) (are_bare rest) h
allows_all-field map_value k t rest h = both (is_entry t) (are_entries rest) h

allows_all-hidden :
    (mode : Access) (k : Str) (t : Tree) (rest : Fields)
    → allows_all mode (hidden k t rest) ≡ true
    → allows_all mode rest ≡ true
unfolding allows_all is_open
allows_all-hidden settable k t rest h = h
allows_all-hidden fixed k t rest h = h
allows_all-hidden map_value k t rest h = h

allows-pointer :
    (mode : Access) (t : Tree) → allows mode (pointer t) ≡ true → allows settable t ≡ true
unfolding allows is_open
allows-pointer settable t h = h
allows-pointer fixed t h = h
allows-pointer map_value t h = h

allows-boxed :
    (mode : Access) (t : Tree) → allows mode (boxed t) ≡ true → allows (content_mode mode) t ≡ true
unfolding allows is_open content_mode
allows-boxed settable t h = h
allows-boxed fixed t h = h
allows-boxed map_value t h = h

allows-parts :
    (mode : Access) (fs : Fields)
    → (allows mode (structure fs) ≡ true → allows_all (part_mode mode) fs ≡ true)
      × (allows mode (array fs) ≡ true → allows_all (part_mode mode) fs ≡ true)
unfolding allows allows_all is_open part_mode
allows-parts settable fs = (λ h. h, λ h. h)
allows-parts fixed fs = (λ h. h, λ h. h)
allows-parts map_value fs = (λ h. h, λ h. h)

allows-elements :
    (mode : Access) (fs : Fields)
    → (allows mode (slice fs) ≡ true → allows_all settable fs ≡ true)
      × (allows mode (mapping fs) ≡ true → allows_all map_value fs ≡ true)
unfolding allows allows_all is_open
allows-elements settable fs = (λ h. h, λ h. h)
allows-elements fixed fs = (λ h. h, λ h. h)
allows-elements map_value fs = (λ h. h, λ h. h)

allows-text :
    (fn : Str → Str) (mode : Access) (s : Str)
    → allows mode (text s) ≡ true
    → replaced fn mode s ≡ fn s
unfolding allows is_open replaced
allows-text fn settable s h = refl
allows-text fn fixed s h = cc h
allows-text fn map_value s h = refl

mutual
  unfolding walk_strings map_strings

  walk-eq :
      (fn : Str → Str) (mode : Access) (t : Tree)
      → allows mode t ≡ true
      → walk_strings fn mode t ≡ map_strings fn t
  walk-eq fn mode nothing h = refl
  walk-eq fn mode (pointer t) h = ap pointer (walk-eq fn settable t (allows-pointer mode t h))
  walk-eq fn mode (boxed t) h = ap boxed (walk-eq fn (content_mode mode) t (allows-boxed mode t h))
  walk-eq fn mode (structure fs) h =
      ap structure (walk_fields-eq fn (part_mode mode) fs ((allows-parts mode fs).0 h))
  walk-eq fn mode (slice fs) h =
      ap slice (walk_fields-eq fn settable fs ((allows-elements mode fs).0 h))
  walk-eq fn mode (array fs) h =
      ap array (walk_fields-eq fn (part_mode mode) fs ((allows-parts mode fs).1 h))
  walk-eq fn mode (mapping fs) h =
      ap mapping (walk_fields-eq fn map_value fs ((allows-elements mode fs).1 h))
  walk-eq fn mode (text s) h = ap text (allows-text fn mode s h)
  walk-eq fn mode (scalar s) h = refl

  walk_fields-eq :
      (fn : Str → Str) (mode : Access) (fs : Fields)
      → allows_all mode fs ≡ true
      → walk_fields fn mode fs ≡ map_fields fn fs
  walk_fields-eq fn mode end h = refl
  walk_fields-eq fn mode (field k t rest) h =
      let (one, others) = allows_all-field mode k t rest h in
      ap₂ (field k) (walk-eq fn mode t one) (walk_fields-eq fn mode rest others)
  walk_fields-eq fn mode (hidden k t rest) h =
      ap (hidden k t) (walk_fields-eq fn mode rest (allows_all-hidden mode k t rest h))

-- From a pointer, as the loader calls it, the walk replaces every string of exported fields and
-- nothing else, on a value in which interfaces hold strings only as values of maps, or behind a
-- pointer, a slice or a map of their own: those of structs, of structs that are values of maps, of
-- slices and of maps of maps included.
pub walk_from-eq-map_strings :
    (fn : Str → Str) (t : Tree)
    → is_open t ≡ true
    → walk_from fn (pointer t) ≡ map_strings fn (pointer t)
unfolding walk_from map_strings allows
walk_from-eq-map_strings fn t h = ap pointer (walk-eq fn settable t h)

-- A list of strings as it is decoded into an `any`.
abbrev pub items : List Str → Fields
items [] = end
items (s ∷ rest) = field [] (boxed (text s)) (items rest)

items-kept : (fn : Str → Str) (ss : List Str) → walk_fields fn settable (items ss) ≡ items ss
unfolding walk_strings content_mode replaced
items-kept fn [] = refl
items-kept fn (s ∷ rest) = ap (field [] (boxed (text s))) (items-kept fn rest)

-- The strings of a list that is a value of a map of `any`, as in the raw part of a configuration, are
-- not replaced, whatever the function.
pub walk_strings-list :
    (fn : Str → Str) (mode : Access) (key : Str) (ss : List Str)
    → walk_strings fn mode (mapping (field key (boxed (slice (items ss))) end))
      ≡ mapping (field key (boxed (slice (items ss))) end)
unfolding walk_strings content_mode
walk_strings-list fn mode key ss =
    ap (λ fs. mapping (field key (boxed (slice fs)) end)) (items-kept fn ss)

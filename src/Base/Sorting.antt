-- ===== src/Base/Sorting.antt =====
-- sort.Strings, and that it sorts.
use mathlib.Core.Path.{◌≡◌, refl}
use mathlib.Core.Logic.{inl, inr}
use mathlib.Core.Bool.{Bool, true, false}
use mathlib.Core.List.{List, [], ◌∷◌, Perm}
use mathlib.Core.List.Perm
use native.Mathlib.Omega.{arith}
use proxclt.Base.Tests.{◌==◌, ltb, if◌then◌else◌, Bool-cases}
use proxclt.Base.Text.{Str}

-- The order of the strings.
unfoldable pub str_leb : Str → Str → Bool
str_leb [] t = true
str_leb (a ∷ s) [] = false
str_leb (a ∷ s) (b ∷ t) = if a == b then str_leb s t else ltb a b

unfoldable pub insert_string : Str → List Str → List Str
unfolding str_leb
insert_string s [] = s ∷ []
insert_string s (t ∷ r) =
    let later = insert_string s r in if str_leb s t then s ∷ t ∷ r else t ∷ later

unfoldable pub sort_strings : List Str → List Str
unfolding insert_string
sort_strings [] = []
sort_strings (s ∷ r) = insert_string s (sort_strings r)

-- Every string is at most the one that follows it.
abbrev pub IsSorted : List Str → Type 0
IsSorted [] = Unit
IsSorted (s ∷ []) = Unit
IsSorted (s ∷ t ∷ r) = (str_leb s t ≡ true) × IsSorted (t ∷ r)

str_leb_total : (s t : Str) → str_leb s t ≡ false → str_leb t s ≡ true
unfolding str_leb
str_leb_total [] t h = cc
str_leb_total (a ∷ s) [] h = refl
str_leb_total (a ∷ s) (b ∷ t) h = ground (arith, str_leb_total s t)

insert_string-IsSorted : (s : Str) (r : List Str) → IsSorted r → IsSorted (insert_string s r)
unfolding insert_string
insert_string-IsSorted s [] h = tt
insert_string-IsSorted s (t ∷ []) h = elim (Bool-cases (str_leb s t)) [
  | inl first ↦ rw first (first, tt)
  | inr after ↦ rw after (str_leb_total s t after, tt)
]
insert_string-IsSorted s (t ∷ u ∷ r) h = elim (Bool-cases (str_leb s t)) [
  | inl first ↦ rw first (first, h)
  | inr after ↦
      let rest = insert_string-IsSorted s (u ∷ r) h.1 in
      elim (Bool-cases (str_leb s u)) [
        | inl here ↦ rw (after, here) (str_leb_total s t after, rw (here, insert_string) at rest)
        | inr again ↦ rw (after, again) (h.0, rw (again, insert_string) at rest)
      ]
]

insert_string-perm : (s : Str) (r : List Str) → Perm (insert_string s r) (s ∷ r)
unfolding insert_string
insert_string-perm s [] = Perm.refl (s ∷ [])
insert_string-perm s (t ∷ r) = elim (Bool-cases (str_leb s t)) [
  | inl first ↦ rw first (Perm.refl (s ∷ t ∷ r))
  | inr after ↦ rw after (Perm.trans (Perm.cons t (insert_string-perm s r)) (Perm.swap s t r))
]

pub sort_strings-perm : (r : List Str) → Perm (sort_strings r) r
unfolding sort_strings
sort_strings-perm [] = Perm.refl []
sort_strings-perm (s ∷ r) =
    Perm.trans (insert_string-perm s (sort_strings r)) (Perm.cons s (sort_strings-perm r))

pub sort_strings-IsSorted : (r : List Str) → IsSorted (sort_strings r)
unfolding sort_strings
sort_strings-IsSorted [] = tt
sort_strings-IsSorted (s ∷ r) = insert_string-IsSorted s (sort_strings r) (sort_strings-IsSorted r)

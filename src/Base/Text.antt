-- ===== src/Base/Text.antt =====
-- Go strings as lists of bytes, with the functions of the package strings that the program calls.
use Prim.Native.Nat.{ℕ, ◌+◌}
use Prim.Native.Char.{code}
use Prim.Native.String.{String}
use mathlib.Core.Path.{◌≡◌, refl}
use mathlib.Core.Logic.{◌↔◌}
use mathlib.Core.Bool.{Bool, true, false, ◌&&◌, ◌||◌}
use mathlib.Core.Option.{Option, none, some}
use mathlib.Core.List.{List, [], ◌∷◌, ◌++◌, map, reverse}
use native.Mathlib.Omega.{arith}
use proxclt.Base.Tests.{◌==◌, ==_iff, leb, if◌then◌else◌}
use proxclt.Base.Lists.{length}

abbrev pub Str : Type 0
Str = List ℕ

-- A string literal of the source.
unfoldable pub lit : String → Str
lit String.[] = []
lit (String.◌∷◌ c s) = code c ∷ lit s

-- ==
unfoldable pub str_eq : Str → Str → Bool
str_eq [] [] = true
str_eq [] (b ∷ t) = false
str_eq (a ∷ s) [] = false
str_eq (a ∷ s) (b ∷ t) = (a == b) && str_eq s t

-- s == ""
unfoldable pub is_empty : Str → Bool
is_empty [] = true
is_empty (a ∷ s) = false

-- strings.HasPrefix
unfoldable pub has_prefix : Str → Str → Bool
has_prefix s [] = true
has_prefix [] (b ∷ p) = false
has_prefix (a ∷ s) (b ∷ p) = (a == b) && has_prefix s p

unfoldable pub drop_length : Str → Str → Str
drop_length s [] = s
drop_length [] (b ∷ p) = []
drop_length (a ∷ s) (b ∷ p) = drop_length s p

-- strings.TrimPrefix
unfoldable pub trim_prefix : Str → Str → Str
unfolding has_prefix drop_length
trim_prefix s p = if has_prefix s p then drop_length s p else s

-- strings.HasSuffix
unfoldable pub has_suffix : Str → Str → Bool
unfolding has_prefix
has_suffix s p = has_prefix (reverse s) (reverse p)

-- strings.TrimSuffix
unfoldable pub trim_suffix : Str → Str → Str
unfolding trim_prefix
trim_suffix s p = reverse (trim_prefix (reverse s) (reverse p))

unfoldable pub drop_byte : ℕ → Str → Str
drop_byte b [] = []
drop_byte b (a ∷ s) = elim (a == b) [ true ↦ drop_byte b s | false ↦ a ∷ s ]

-- strings.TrimRight, with a cut set of one byte
unfoldable pub trim_right_byte : ℕ → Str → Str
unfolding drop_byte
trim_right_byte b s = reverse (drop_byte b (reverse s))

-- The white space of strings.TrimSpace within ASCII.
unfoldable pub is_space : ℕ → Bool
is_space c = (leb 9 c && leb c 13) || (c == 32)

unfoldable pub trim_left : Str → Str
trim_left [] = []
trim_left (a ∷ s) = elim (is_space a) [ true ↦ trim_left s | false ↦ a ∷ s ]

unfoldable pub trim_right : Str → Str
unfolding trim_left is_space
trim_right s = reverse (trim_left (reverse s))

-- strings.TrimSpace
unfoldable pub trim_space : Str → Str
unfolding trim_left trim_right is_space
trim_space s = trim_right (trim_left s)

-- strings.Split, with a separator of one byte: `word` is what was read of the current part.
unfoldable pub split_from : ℕ → Str → Str → List Str
split_from b word [] = word ∷ []
split_from b word (a ∷ s) = elim (a == b) [
  | true ↦ word ∷ split_from b [] s
  | false ↦ split_from b (word ++ a ∷ []) s
]

unfoldable pub split : ℕ → Str → List Str
unfolding split_from
split b s = split_from b [] s

-- strings.Join
unfoldable pub join : Str → List Str → Str
join sep [] = []
join sep (s ∷ []) = s
join sep (s ∷ t ∷ r) = s ++ sep ++ join sep (t ∷ r)

unfoldable pub lower_byte : ℕ → ℕ
lower_byte c = if leb 65 c && leb c 90 then c + 32 else c

-- strings.ToLower, within ASCII
unfoldable pub to_lower : Str → Str
unfolding lower_byte
to_lower s = map lower_byte s

-- strings.EqualFold, within ASCII
unfoldable pub equal_fold : Str → Str → Bool
unfolding to_lower str_eq
equal_fold s t = str_eq (to_lower s) (to_lower t)

-- strings.Contains
unfoldable pub contains : Str → Str → Bool
unfolding has_prefix
contains [] p = has_prefix [] p
contains (a ∷ s) p = has_prefix (a ∷ s) p || contains s p

unfoldable pub has_byte : ℕ → Str → Bool
has_byte b [] = false
has_byte b (a ∷ s) = (a == b) || has_byte b s

abbrev pub prefixed : ℕ → Option (Str × Str) → Option (Str × Str)
prefixed a none = none
prefixed a (some (before, after)) = some (a ∷ before, after)

-- strings.IndexByte, with the slices before and after the byte; -1 is `none`
unfoldable pub cut_byte : ℕ → Str → Option (Str × Str)
cut_byte b [] = none
cut_byte b (a ∷ s) = elim (a == b) [ true ↦ some ([], s) | false ↦ prefixed a (cut_byte b s) ]

unfoldable pub last_index_from : ℕ → Option ℕ → ℕ → Str → Option ℕ
last_index_from i found b [] = found
last_index_from i found b (a ∷ s) = last_index_from (i + 1) (if a == b then some i else found) b s

-- strings.LastIndex, with a pattern of one byte; -1 is `none`
unfoldable pub last_index : Str → ℕ → Option ℕ
unfolding last_index_from
last_index s b = last_index_from 0 none b s

-- The parts of a formatted string, put together.
unfoldable pub concat : List Str → Str
concat [] = []
concat (s ∷ r) = s ++ concat r

-- firstNonEmpty of pkg/workflow/single_vm.go, for any number of strings
unfoldable pub first_non_empty : List Str → Str
unfolding is_empty
first_non_empty [] = []
first_non_empty (s ∷ r) = if is_empty s then first_non_empty r else s

pub str_eq_iff : (s t : Str) → (str_eq s t ≡ true) ↔ (s ≡ t)
unfolding str_eq
str_eq_iff [] [] = (λ _. refl, λ _. refl)
str_eq_iff [] (b ∷ t) = (λ h. cc, λ h. cc)
str_eq_iff (a ∷ s) [] = (λ h. cc, λ h. cc)
str_eq_iff (a ∷ s) (b ∷ t) = (
  λ h. ground (arith, ==_iff a b, str_eq_iff s t),
  λ h. ground (arith, ==_iff a b, str_eq_iff s t),
)

pub str_eq_refl : (s : Str) → str_eq s s ≡ true
str_eq_refl s = (str_eq_iff s s).1 refl

pub str_eq_comm : (s t : Str) → str_eq s t ≡ str_eq t s
str_eq_comm s t = ground (arith, str_eq_iff s t, str_eq_iff t s)

pub is_empty_iff : (s : Str) → (is_empty s ≡ true) ↔ (s ≡ [])
unfolding is_empty
is_empty_iff [] = (λ _. refl, λ _. refl)
is_empty_iff (a ∷ s) = (λ h. cc, λ h. cc)

pub length-append {ℓ} : {A : Type ℓ} (xs ys : List A) → length (xs ++ ys) ≡ length xs + length ys
length-append [] ys = omega arith
length-append (x ∷ xs) ys = omega (arith, length-append xs ys)

pub length-concat :
    (s : Str) (r : List Str) → length (concat (s ∷ r)) ≡ length s + length (concat r)
unfolding concat
length-concat s r = length-append s (concat r)

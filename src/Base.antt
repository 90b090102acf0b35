-- ===== src/Base.antt =====
-- The names that the other modules share: the libraries', passed on, and those of the children.
mod Tests
mod Lists
mod Text
mod Decimal
mod Outcome
mod Bytes
mod Sorting
mod Splitting
mod Trimming
pub use Tests.*
pub use Lists.*
unfoldable pub use Decimal.{itoa, atoi}
pub use Outcome.*
pub use Splitting.*
pub use Trimming.*
pub use Sorting.{IsSorted, sort_strings-perm, sort_strings-IsSorted}
unfoldable pub use Sorting.{str_leb, insert_string, sort_strings}
pub use Bytes.{of_all_below}
unfoldable pub use Bytes.{all_below}
unfoldable pub use Outcome.{joined, join_all}
pub use Text.{
  prefixed, Str, str_eq_iff, str_eq_refl, str_eq_comm, is_empty_iff, length-append, length-concat,
}
unfoldable pub use Text.{
  lit, str_eq, is_empty, has_prefix, has_suffix, trim_prefix, trim_suffix, drop_byte, drop_length,
  trim_space, trim_right, is_space, split, join, to_lower, equal_fold, contains, trim_right_byte,
  concat, first_non_empty, last_index, has_byte, cut_byte,
}
pub use Prim.Native.Nat.{ℕ, zero, suc, ◌+◌, ◌-◌, ◌*◌, ◌/◌, ◌%◌, ◌^◌, ◌≤◌, ◌<◌}
pub use Prim.Native.String.{String}
pub use mathlib.Core.Path.{◌≡◌, refl, sym, ap, ◌∙◌}
pub use mathlib.Core.Logic.{◌≢◌, ◌↔◌, ◌⊎◌, inl, inr}
pub use mathlib.Core.Bool.{Bool, true, false, not, ◌&&◌, ◌||◌}
pub use mathlib.Core.Option.{Option, none, some}
pub use mathlib.Core.List.{List, [], ◌∷◌, ◌++◌, map, append_assoc, append-nil}
pub use native.Mathlib.Omega.{arith}

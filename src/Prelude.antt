-- ===== src/Prelude.antt =====
-- The names that the other modules share: the libraries', passed on, and those of the children.
mod Tests
mod Lists
mod Text
mod Int
mod Float
mod Members
mod Search
pub use Tests.*
pub use Lists.*
unfoldable pub use Text.{is_space, trim_space, decimal}
pub use Text.{
  is_blank, trim_space-empty, is_blank-ne-empty, is_blank-append, trim_space-trim_space, IsCompact,
  trim_space-append, trim_space-compact,
}
unfoldable pub use Members.{Distinct}
pub use Members.{
  All-append, All-imply, All-middle, All-update_where, find?-All, update_where-none, any-append,
  any-update_where, All-map, All-filter, All-take, All-insert_by, All-sort_by, any-All,
  Distinct-append, Distinct-update_where, find?-append, find?-update_where, All-update_where-if,
  All-every, All-both, any-false-All, length-filter-or, filter-none, length-map, any-cong,
}
unfoldable pub use Search.{has_prefix, contains, before_first, from_last, split_two}
pub use Search.{Lacks, before_first-scheme, from_last-marked, split_two-append}
pub use Int.*
unfoldable pub use Float.{float_lt, float_le}
pub use Float.{Float64, is_nan, float_zero, float_hundred}
pub use Prim.Native.Nat.{ℕ, zero, suc, ◌+◌, ◌-◌, ◌*◌, ◌/◌, ◌%◌, ◌^◌, ◌≤◌, ◌<◌}
pub use Prim.Native.String.{String, ◌++◌ as ◌<>◌, len as byte_length}
pub use mathlib.Core.Path.{◌≡◌, refl, sym, ap, ◌∙◌, subst}
pub use mathlib.Core.Logic.{◌≢◌, ◌↔◌, ◌⊎◌, inl, inr}
pub use mathlib.Core.Bool.{Bool, true, false, not, ◌&&◌, ◌||◌}
pub use mathlib.Core.Option.{Option, none, some}
pub use mathlib.Core.List.{List, [], ◌∷◌, ◌++◌, map}
pub use native.Mathlib.Omega.{arith}
pub use text.Mathlib.Text.{◌==◌ as str_eq}
pub use text.Mathlib.TextEquality.{eq_iff}

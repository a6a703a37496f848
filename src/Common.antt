-- ===== src/Common.antt =====
-- The names that the other modules share: the libraries', passed on, and those of the children.
mod Tests
mod Lists
mod Bytes
mod Int
mod Outcome
pub use Tests.*
pub use Lists.*
pub use Bytes.{
  eq_of_text_eq, Text, bytes, text_eq, is_empty, text_compare_refl, text_eq_refl,
  eq_of_text_compare, text_compare_gt, text_compare_lt, text_compare_trans,
}
unfoldable pub use Bytes.{text_compare}
pub use Int.{ℤ, pos, negsuc, pos_part, neg_part, fits_int64, to_int64, wrap_uint64, sub_ℕ}
unfoldable pub use Int.{◌+ℤ◌}
pub use Outcome.*
pub use Prim.Native.Nat.{
  ℕ, zero, suc, ◌+◌, ◌-◌, ◌*◌, ◌%◌, ◌^◌, ◌≤◌, ◌<◌, max, min, ◌/◌, compare, Ordering,
}
pub use Prim.Native.String.{String}
pub use mathlib.Core.Path.{◌≡◌, refl, sym, ap, ◌∙◌, subst}
pub use mathlib.Core.Logic.{◌≢◌, ◌↔◌, ◌⊎◌, inl, inr}
pub use mathlib.Core.Bool.{Bool, true, false, not, ◌&&◌, ◌||◌}
pub use mathlib.Core.Option.{Option, none, some}
pub use mathlib.Core.List.{List, [], ◌∷◌, ◌++◌, append_assoc, append-nil}
pub use native.Mathlib.Omega.{arith}

-- ===== src/Prelude.antt =====
-- The names that the other modules share: the libraries', passed on, and those of the children.
mod Tests
mod Lists
mod Panic
mod Int
mod Words
mod Utf8
mod Texts
pub use Tests.*
pub use Lists.*
pub use Panic.*
unfoldable pub use Utf8.{from_utf8}
pub use Utf8.{from_utf8-ascii, decode}
pub use Texts.{codes, pad_right, pad_left, concat, join}
unfoldable pub use Texts.{decimal, hex_byte}
pub use Words.*
pub use Int.{
  ℤ, pos, negsuc, pos_part, neg_part, ◌≤ℤ◌, leb_ℤ, ltb_ℤ, eqb_ℤ, InRange, clamp-InRange,
  clamp-eq_some, +ℤ_parts, -ℤ_parts, eq_of_parts, int_laws, division_law, rem_bound, scale,
  division_sum,
}
unfoldable pub use Int.{◌+ℤ◌, ◌-ℤ◌, quot, rem, clamp}
pub use Prim.Native.Nat.{ℕ, zero, suc, ◌+◌, ◌-◌, ◌*◌, ◌/◌, ◌%◌, ◌^◌, ◌≤◌, ◌<◌, min, max}
pub use mathlib.Core.Path.{◌≡◌, refl, sym, ap, ap₂, ◌∙◌, subst}
pub use mathlib.Core.Logic.{◌≢◌, ◌↔◌, ◌⊎◌, inl, inr}
pub use mathlib.Core.Bool.{Bool, true, false, not, ◌&&◌, ◌||◌}
pub use mathlib.Core.Option.{Option, none, some}
pub use mathlib.Core.List.{List, [], ◌∷◌, ◌++◌, map, reverse}
pub use native.Mathlib.Omega.{arith}
unfoldable pub use native.Mathlib.Decide.{dec_lt, dec_le, ℕ_discrete}

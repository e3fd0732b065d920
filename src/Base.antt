-- ===== src/Base.antt =====
-- The names that the other modules share: the libraries', passed on, and those of the children.
mod Tests
pub mod Distinct
mod Lists
pub mod Int
pub mod Order
pub mod Text
pub mod Keys
pub mod Members
pub mod Result
pub use Tests.*
pub use Lists.*
pub use Text.{
  String, str_eq, eq_iff, differ, eq_refl, str_eq_refl, str_leb_total, str_leb_trans,
  str_leb_antisym, is_empty, is_space, strip_twice,
}
unfoldable pub use Text.{str_leb, contains, dedup, subset, strip, str_length}
pub use Prim.Native.Nat.{ℕ, zero, suc, ◌+◌, ◌-◌, ◌*◌, ◌/◌, ◌%◌, ◌^◌, ◌≤◌, ◌<◌, min, max}
pub use mathlib.Core.Path.{◌≡◌, refl, sym, ap, ◌∙◌, subst, fun_ext}
pub use mathlib.Core.Logic.{◌≢◌, ◌↔◌, ◌⊎◌, inl, inr}
pub use mathlib.Core.Bool.{Bool, true, false, not, ◌&&◌, ◌||◌}
pub use mathlib.Core.Option.{Option, none, some}
pub use mathlib.Core.List.{List, [], ◌∷◌, ◌++◌, map, Perm, Permᴰ, Memᴰ}
pub use native.Mathlib.Omega.{arith}

-- ===== src/Common.antt =====
-- The names that the other modules share.
mod Tests
mod Lists
mod Int
mod Text
mod Sort
mod Trim
mod Members
mod Split
mod Uri
mod Decimal
pub mod Result
pub use Tests.*
pub use Int.*
unfoldable pub use Text.*
unfoldable pub use Sort.*
unfoldable pub use Split.*
unfoldable pub use Uri.*
unfoldable pub use Decimal.*
pub use Lists.*
pub use Trim.*
pub use Members.*
pub use Prim.Native.Nat.{ℕ, zero, suc, max, min, ◌+◌, ◌-◌, ◌*◌, ◌/◌, ◌%◌, ◌^◌, ◌≤◌, ◌<◌}
pub use Prim.Native.String.{String}
pub use mathlib.Core.Path.{◌≡◌, refl, sym, ap, ap₂, subst, ◌∙◌}
pub use mathlib.Core.Logic.{◌≢◌, ◌↔◌, ◌⊎◌, inl, inr}
pub use mathlib.Core.Bool.{Bool, true, false, not, ◌&&◌, ◌||◌}
pub use mathlib.Core.Option.{Option, none, some}
pub use mathlib.Core.List.{List, [], ◌∷◌, ◌++◌, map}
pub use native.Mathlib.Omega.{arith}
pub use text.Mathlib.TextEquality.{eq_iff}

-- ===== src/Base.antt =====
-- The names that the models share: the libraries' own, passed on, and those of the children.
mod Tests
mod Lists
mod Sorting
mod Words
mod ByteStrings
mod Maps
pub mod Result
pub mod Action
pub use Tests.*
pub use Lists.*
unfoldable pub use Sorting.*
unfoldable pub use Maps.*
pub use Words.*
pub use ByteStrings.*
pub use Prim.Native.Nat.{
  ℕ, zero, suc, ◌+◌, ◌-◌, ◌*◌, ◌/◌, ◌%◌, ◌^◌, ◌≤◌, ◌<◌, min, compare, Ordering,
}
pub use mathlib.Core.Path.{◌≡◌, refl, sym, ap, ap₂, ◌∙◌, subst}
pub use mathlib.Core.Logic.{◌≢◌, ◌↔◌, ◌⊎◌, inl, inr}
pub use mathlib.Core.Bool.{Bool, true, false, ◌&&◌, ◌||◌, not}
pub use mathlib.Core.Option.{Option, none, some}
pub use mathlib.Core.List.{List, [], ◌∷◌, ◌++◌, map}
pub use native.Mathlib.Omega.{arith}

-- ===== src/Common.antt =====
-- The names that every module of the development shares: the libraries', passed on, and those of
-- the children (tests on numbers, lists over the native numbers, texts, signed integers).
mod Tests
mod Lists
mod Texts
mod Walks
pub mod Keyed
pub mod Int
pub mod Prefix
pub use Tests.*
pub use Lists.*
unfoldable pub use Texts.*
unfoldable pub use Walks.*
pub use Prim.Native.Nat.{ℕ, zero, suc, ◌+◌, ◌-◌, ◌*◌, ◌/◌, ◌%◌, ◌^◌, ◌≤◌, ◌<◌}
pub use mathlib.Core.Path.{◌≡◌, refl, sym, ap, ◌∙◌, subst}
pub use mathlib.Core.Logic.{◌≢◌, ◌↔◌, ◌⊎◌, inl, inr}
pub use mathlib.Core.Bool.{Bool, true, false, not, ◌&&◌, ◌||◌}
pub use mathlib.Core.Option.{Option, none, some}
pub use mathlib.Core.List.{List, [], ◌∷◌, ◌++◌, map}
pub use native.Mathlib.Omega.{arith}

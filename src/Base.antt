-- ===== src/Base.antt =====
-- The names the other modules share: the libraries', passed on, with the tests on numbers and texts,
-- the lists and the keyed maps of its child modules.
mod Tests
mod Lists
mod Map
mod Weigh
mod Members
mod Look
mod Tally
pub mod Checked
pub use Tests.*
pub use Lists.*
unfoldable pub use Map.*
pub use Weigh.*
unfoldable pub use Members.*
pub use Look.*
pub use Tally.*
pub use Prim.Native.Nat.{ℕ, zero, suc, ◌+◌, ◌-◌, ◌*◌, ◌/◌, ◌%◌, ◌^◌, ◌≤◌, ◌<◌}
pub use Prim.Native.String.{String}
pub use mathlib.Core.Path.{◌≡◌, refl, sym, ap, ◌∙◌, subst}
pub use mathlib.Core.Logic.{◌≢◌, ◌↔◌, ◌⊎◌, inl, inr}
pub use mathlib.Core.Bool.{Bool, true, false, ◌&&◌, ◌||◌, not}
pub use mathlib.Core.Option.{Option, none, some}
pub use mathlib.Core.List.{List, [], ◌∷◌, ◌++◌, map}
pub use native.Mathlib.Omega.{arith}

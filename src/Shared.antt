-- ===== src/Shared.antt =====
-- The names that every other module shares: those of the libraries, and those of the children.
mod Tests
mod Results
mod Lists
mod Maps
mod Sorting
mod Texts
mod Numbers
mod Thousandths
mod Integers
unfoldable pub use Results.*
pub use Tests.*
unfoldable pub use Maps.*
unfoldable pub use Sorting.*
unfoldable pub use Lists.*
unfoldable pub use Texts.*
pub use Numbers.*
pub use Thousandths.*
pub use Integers.*
pub use Prim.Native.Nat.{ℕ, zero, suc, ◌+◌, ◌-◌, ◌*◌, ◌/◌, ◌%◌, ◌^◌, ◌≤◌, ◌<◌, min, max}
pub use mathlib.Core.Path.{◌≡◌, refl, sym, ap, ◌∙◌, subst}
pub use mathlib.Core.Logic.{◌≢◌, ◌↔◌, ◌⊎◌, inl, inr}
pub use mathlib.Core.Bool.{Bool, true, false, not, ◌&&◌, ◌||◌}
pub use mathlib.Core.Option.{Option, none, some}
pub use mathlib.Core.List.{List, [], ◌∷◌, ◌++◌, map}
pub use native.Mathlib.Omega.{arith}

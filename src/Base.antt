-- ===== src/Base.antt =====
-- The names that the modules share: the libraries', passed on, and those of the children.
mod Tests
mod Equality
mod Lists
mod Results
mod Words
mod Buffers
mod Decimal
mod Strings
mod Printing
mod Search
mod Sorting
mod Maps
pub use Tests.*
pub use Equality.*
pub use Lists.*
pub use Results.*
pub use Words.*
unfoldable pub use Buffers.*
unfoldable pub use Maps.*
unfoldable pub use Decimal.*
unfoldable pub use Strings.*
pub use Printing.*
unfoldable pub use Search.*
unfoldable pub use Sorting.*
pub use Prim.Native.Nat.{ℕ, zero, suc, ◌+◌, ◌-◌, ◌*◌, ◌/◌, ◌%◌, ◌^◌, ◌≤◌, ◌<◌, max}
pub use mathlib.Core.Path.{◌≡◌, refl, sym, ap, ◌∙◌}
pub use mathlib.Core.Logic.{◌≢◌, ◌↔◌, ◌⊎◌, inl, inr}
pub use mathlib.Core.Bool.{Bool, true, false, not, ◌&&◌, ◌||◌}
pub use mathlib.Core.Option.{Option, none, some}
pub use mathlib.Core.List.{List, [], ◌∷◌, ◌++◌, map}
pub use native.Mathlib.Omega.{arith}

-- ===== src/Base.antt =====
-- Names that the other modules share: the library's, passed on, and those of the children, which
-- stand for Go's built-in types: Boolean tests, slices, texts, signed 64-bit integers.
mod Tests
mod Lists
mod Texts
mod Trim
mod Int
mod Int64
mod Results
mod Tables
mod Keys
mod Sorting
pub mod Calls
pub mod Decimal
pub use Tests.*
pub use Lists.*
unfoldable pub use Texts.*
unfoldable pub use Int.*
unfoldable pub use Int64.*
unfoldable pub use Results.*
pub use Tables.*
pub use Trim.*
pub use Keys.*
pub use Sorting.*
pub use Prim.Native.Nat.{ℕ, zero, suc, ◌+◌, ◌-◌, ◌*◌, ◌/◌, ◌%◌, ◌^◌, ◌≤◌, ◌<◌}
pub use Prim.Native.String.{String}
pub use mathlib.Core.Path.{◌≡◌, refl, sym, ap, ◌∙◌, subst}
pub use mathlib.Core.Logic.{◌≢◌, ◌↔◌, ◌⊎◌, inl, inr}
pub use mathlib.Core.Bool.{Bool, true, false, not, ◌&&◌, ◌||◌}
pub use mathlib.Core.Option.{Option, none, some}
pub use mathlib.Core.List.{List, [], ◌∷◌, ◌++◌, map, reverse}
pub use native.Mathlib.Omega.{arith}

-- ===== src/Base.antt =====
-- The names that every module of this library shares: the libraries', passed on, and those of the
-- children (tests, lists, integers, results, texts).
mod Tests
mod Lists
mod Results
pub mod Searching
pub mod Maps
pub mod Sorting
pub mod Do
pub mod Int
pub mod Texts
unfoldable pub use Tests.*
pub use Lists.*
pub use Results.*
pub use Texts.{template, is_empty}
pub use Prim.Native.Nat.{ℕ, zero, suc, ◌+◌, ◌-◌, ◌*◌, ◌/◌, ◌%◌, ◌^◌, ◌≤◌, ◌<◌, min, max}
pub use Prim.Native.String.{String}
pub use mathlib.Core.Path.{◌≡◌, refl, sym, ap, ◌∙◌}
pub use mathlib.Core.Logic.{◌≢◌, ◌↔◌, ◌⊎◌, inl, inr}
pub use mathlib.Core.Bool.{Bool, true, false, not, ◌&&◌, ◌||◌}
pub use mathlib.Core.Option.{Option, none, some}
pub use mathlib.Core.List.{List, [], ◌∷◌, ◌++◌, map}
pub use native.Mathlib.Omega.{arith}

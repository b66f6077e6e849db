-- ===== src/Base.antt =====
-- Names that every module shares: the libraries' names in use, Boolean tests on numbers, signed
-- numbers, Go strings, errors as values and the state of a running method.
mod Tests
mod Ints
mod Text
mod Effects
mod Maps
pub use Tests.*
unfoldable pub use Ints.*
unfoldable pub use Text.*
pub use Effects.*
unfoldable pub use Maps.*
pub use Prim.Native.Nat.{ℕ, zero, suc, ◌+◌, ◌-◌, ◌*◌, ◌/◌, ◌%◌, ◌^◌, ◌≤◌, ◌<◌}
pub use mathlib.Core.Path.{◌≡◌, refl, sym, ap, ◌∙◌}
pub use mathlib.Core.Logic.{◌≢◌, ◌↔◌, ◌⊎◌, inl, inr}
pub use mathlib.Core.Bool.{Bool, true, false, not, ◌&&◌, ◌||◌}
pub use mathlib.Core.Option.{Option, none, some}
pub use mathlib.Core.List.{List, [], ◌∷◌, ◌++◌, map, reverse}
pub use native.Mathlib.Omega.{arith}

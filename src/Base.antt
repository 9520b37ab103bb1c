-- ===== src/Base.antt =====
-- The names that the modules of the library share: the libraries', passed on, Boolean tests on the
-- native numbers, lists indexed by them, the result of a C call, and C integers as bit patterns.
mod Tests
mod Lists
mod Result
mod Word
pub mod Order
pub mod Bits
pub mod First
pub mod Loop
pub use Tests.*
pub use Lists.*
unfoldable pub use Result.*
pub use Word.*
pub use Prim.Native.Nat.{ℕ, zero, suc, ◌+◌, ◌-◌, ◌*◌, ◌/◌, ◌%◌, ◌^◌, ◌≤◌, ◌<◌, min, max}
pub use Prim.Native.Nat.{bit_and, bit_or, bit_xor}
pub use mathlib.Core.Path.{◌≡◌, refl, sym, ap, ap₂, ◌∙◌}
pub use mathlib.Core.Logic.{◌≢◌, ◌↔◌, ◌⊎◌, inl, inr}
pub use mathlib.Core.Bool.{Bool, true, false, ◌&&◌, ◌||◌, not}
pub use mathlib.Core.Option.{Option, none, some}
pub use mathlib.Core.List.{List, [], ◌∷◌, ◌++◌, map}
pub use native.Mathlib.Omega.{arith}

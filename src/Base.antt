-- ===== src/Base.antt =====
-- What the modules share: library names passed on, tests on numbers, arrays as lists, integers,
-- and machine-word arithmetic.
mod Tests
mod Lists
mod Slots
mod Int
mod Words
pub mod Bits
pub mod Occurs
pub mod Arguments
pub use Tests.*
unfoldable pub use Lists.*
unfoldable pub use Slots.*
pub use Int.*
pub use Words.*
pub use Prim.Native.Nat.{ℕ, zero, suc, ◌+◌, ◌-◌, ◌*◌, ◌/◌, ◌%◌, ◌^◌, ◌≤◌, ◌<◌, min, bit_and}
pub use mathlib.Core.Path.{◌≡◌, refl, sym, ap, ap₂, subst, ◌∙◌}
pub use mathlib.Core.Logic.{◌≢◌, ◌↔◌, ◌⊎◌, inl, inr}
pub use mathlib.Core.Bool.{Bool, true, false, not, ◌&&◌, ◌||◌}
pub use mathlib.Core.Option.{Option, none, some}
pub use mathlib.Core.List.{List, [], ◌∷◌, ◌++◌, map, append_assoc, append-nil}
pub use native.Mathlib.Omega.{arith}

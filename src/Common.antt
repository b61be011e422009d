-- ===== src/Common.antt =====
-- The names that all modules share: those of the libraries, passed on, the tests and lists of the
-- children, and words with their bit operations.
mod Tests
mod Lists
mod Digits
mod Bits
mod Words
mod Flags
mod Merge
mod Single
unfoldable pub use Tests.*
pub use Lists.*
pub use Bits.*
pub use Words.*
unfoldable pub use Flags.*
pub use Merge.*
pub use Single.*
pub use Prim.Native.Nat.{
  ℕ, zero, suc, ◌+◌, ◌-◌, ◌*◌, ◌/◌, ◌%◌, ◌^◌, ◌≤◌, ◌<◌, bit_and, bit_or, bit_xor, min, max,
}
pub use mathlib.Core.Path.{◌≡◌, refl, sym, ap, ap₂, ◌∙◌}
pub use mathlib.Core.Logic.{◌≢◌, ◌↔◌, ◌⊎◌, inl, inr}
pub use mathlib.Core.Bool.{Bool, true, false, not, ◌&&◌, ◌||◌}
pub use mathlib.Core.Option.{Option, none, some}
pub use mathlib.Core.List.{List, [], ◌∷◌, ◌++◌, map}
pub use native.Mathlib.Omega.{arith}

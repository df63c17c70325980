-- ===== src/Prelude.antt =====
-- What the other modules share: the library's names, Boolean tests on the native numbers,
-- lists under native indices, and the rule sets for the tactics.
mod Tests
mod Lists
pub mod Order
pub mod Slots
pub mod Blocks
pub mod Totals
pub use Tests.*
pub use Lists.*
pub use Prim.Native.Nat.{
  ℕ, zero, suc, ◌+◌, ◌-◌, ◌*◌, ◌/◌, ◌%◌, ◌^◌, ◌≤◌, ◌<◌, max, min, bit_and, bit_or, bit_xor,
}
pub use mathlib.Core.Path.{◌≡◌, refl, sym, ap, ap₂, ◌∙◌, subst, fun_ext, ◌≡⟨◌⟩◌, ◌∎}
pub use mathlib.Core.Logic.{◌≢◌, ◌↔◌, ◌⊎◌, inl, inr}
pub use mathlib.Core.Bool.{Bool, true, false, not, ◌&&◌, ◌||◌}
pub use mathlib.Core.Option.{Option, none, some}
pub use mathlib.Core.List.{List, [], ◌∷◌, ◌++◌, map}
pub use native.Mathlib.Omega.{arith}

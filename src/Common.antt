-- ===== src/Common.antt =====
-- The names that the other modules share: those of the libraries, passed on, and the Boolean
-- tests, lists, register flags and signed numbers of the children.
mod Tests
mod Lists
mod Flags
mod Int
mod Bits
pub use Tests.*
pub use Lists.*
unfoldable pub use Flags.{holds_below}
pub use Flags.{u8, u16, u32, u64, has, set_flag, clear_flag, holds_below_sound}
pub use Bits.{bit_or-join, bit_or_comm}
pub use Int.*
pub use Prim.Native.Nat.{
  ℕ, zero, suc, ◌+◌, ◌-◌, ◌*◌, ◌/◌, ◌%◌, ◌^◌, ◌≤◌, ◌<◌, min, bit_and, bit_or, bit_xor,
}
pub use mathlib.Core.Path.{◌≡◌, refl, sym, ap, ap₂, ◌∙◌, subst}
pub use mathlib.Core.Logic.{◌≢◌, ◌⊎◌, inl, inr}
pub use mathlib.Core.Bool.{Bool, true, false, not, ◌&&◌, ◌||◌}
pub use mathlib.Core.Option.{Option, none, some}
pub use mathlib.Core.List.{List, [], ◌∷◌, ◌++◌}
pub use native.Mathlib.Omega.{arith}

-- ===== src/Common.antt =====
-- The names that the other modules share: the libraries', passed on, and those of the children.
mod Tests
mod Lists
mod Words
mod Tables
mod Memory
mod Search
pub mod Bits
pub use Tests.*
pub use Lists.*
pub use Words.{
  u32_mod, add32, sub32, mul32, page_size, page_mask, bit_and-page_offset, bit_and-table_index,
  bit_and-page_mask, page_up_lem,
}
unfoldable pub use Words.{page_up}
pub use Search.*
pub use Memory.{update, fill_with_lem}
unfoldable pub use Memory.{fill_with}
pub use Tables.{holds_below_lem}
unfoldable pub use Tables.{holds_below}
pub use Prim.Native.Nat.{ℕ, zero, suc, ◌+◌, ◌-◌, ◌*◌, ◌/◌, ◌%◌, ◌^◌, ◌≤◌, ◌<◌, bit_and, bit_or}
pub use mathlib.Core.Path.{◌≡◌, refl, sym, ap, ◌∙◌}
pub use mathlib.Core.Logic.{◌≢◌, ◌↔◌, ◌⊎◌, inl, inr}
pub use mathlib.Core.Bool.{Bool, true, false, ◌&&◌, ◌||◌, not}
pub use mathlib.Core.Option.{Option, none, some}
pub use mathlib.Core.List.{List, [], ◌∷◌, ◌++◌, map}
pub use native.Mathlib.Omega.{arith}

-- ===== src/Prelude.antt =====
-- The names that the other modules share: the libraries', passed on, and those of the children.
mod Tests
mod Lists
mod Panic
mod Slices
mod Count
mod Bits
mod WordBits
pub use Tests.*
pub use Lists.*
pub use Panic.*
pub use Slices.*
pub use Bits.{and_mask, or_field, bit_at, or_bit, and_bit, or_one}
pub use Prim.Native.Nat.{bit_and, bit_or}
unfoldable pub use WordBits.{trailing_ones}
pub use WordBits.{set_bit, clear_bit, set_bit_bound, trailing_ones_lem, all_ones}
unfoldable pub use Count.{count, find_eq, inside, remove_at}
pub use Count.{find_eq-none, find_eq-some, inside_grow, count-remove_at, length-remove_at}
pub use Prim.Native.Nat.{ℕ, zero, suc, ◌+◌, ◌-◌, ◌*◌, ◌/◌, ◌%◌, ◌^◌, ◌≤◌, ◌<◌, min, max}
pub use mathlib.Core.Path.{◌≡◌, refl, sym, ap, ap₂, ◌∙◌, subst, fun_ext}
pub use mathlib.Core.Logic.{◌≢◌, ◌↔◌, ◌⊎◌, inl, inr}
pub use mathlib.Core.Bool.{Bool, true, false, not, ◌&&◌, ◌||◌}
pub use mathlib.Core.Option.{Option, none, some}
pub use mathlib.Core.List.{List, [], ◌∷◌, ◌++◌, map, append-nil, append_assoc}
pub use native.Mathlib.Omega.{arith}

-- ===== src/Base.antt =====
-- The names that the other modules share.
mod Tests
mod Lists
mod Bits
mod Word
mod BitSet
mod BitOr
pub mod Int
pub mod Run
mod Bytes
pub use Tests.*
unfoldable pub use Tests.{all_below}
unfoldable pub use Lists.{remove_first, some_elem}
unfoldable pub use Bits.{bit}
unfoldable pub use Word.{htons}
unfoldable pub use Bytes.{poke}
pub use Lists.*
pub use Bytes.*
pub use Bits.*
pub use Word.*
pub use BitSet.*
pub use BitOr.*
pub use Prim.Native.Nat.{
  ℕ, zero, suc, ◌+◌, ◌-◌, ◌*◌, ◌/◌, ◌%◌, ◌^◌, ◌≤◌, ◌<◌, min, max, bit_and, bit_or,
}
pub use mathlib.Core.Path.{◌≡◌, refl, sym, ap, ap₂, subst, ◌∙◌}
pub use mathlib.Core.Logic.{◌≢◌, ◌↔◌, ◌⊎◌, inl, inr}
pub use mathlib.Core.Bool.{Bool, true, false, not, ◌&&◌, ◌||◌}
pub use mathlib.Core.Option.{Option, none, some}
pub use mathlib.Core.List.{List, [], ◌∷◌, ◌++◌, map}
pub use native.Mathlib.Omega.{arith}

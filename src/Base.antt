-- ===== src/Base.antt =====
-- The names that the other modules share: the libraries', passed on, and those of the children.
mod Tests
mod Lists
mod Results
mod Memory
mod Copies
pub mod Bits
pub mod Digits
pub use Tests.*
pub use Lists.*
pub use Results.*
unfoldable pub use Memory.{load, slice, memcpy, store, fill}
pub use Memory.{
  memcpy_at, slice_at, length-fill, memcpy_exact, slice_exact, memcpy_cleared, store_last,
  load_last, load_defined, slice-take, length-take, take-append,
}
pub use Copies.{memcpy_front, length-drop, slice-drop, memcpy_behind, memcpy_past}
pub use Prim.Native.Nat.{
  ℕ, zero, suc, ◌+◌, ◌-◌, ◌*◌, ◌/◌, ◌%◌, ◌^◌, ◌≤◌, ◌<◌, bit_and, bit_or, bit_xor,
}
pub use mathlib.Core.Path.{◌≡◌, refl, sym, ap, ◌∙◌}
pub use mathlib.Core.Logic.{◌≢◌, ◌↔◌, ◌⊎◌, inl, inr}
pub use mathlib.Core.Bool.{Bool, true, false, not, ◌&&◌, ◌||◌}
pub use mathlib.Core.Option.{Option, none, some}
pub use mathlib.Core.List.{List, [], ◌∷◌, ◌++◌, map}
pub use native.Mathlib.Omega.{arith}

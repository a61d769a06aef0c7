-- ===== src/Common.antt =====
-- The names that the other modules share: the library's, passed on, and those of the children.
mod Tests
mod Lists
mod Strings
mod Maps
pub use Tests.*
pub use Lists.*
unfoldable pub use Strings.{Bytes, codes, bytes_eq, bytes_lt}
unfoldable pub use Maps.{Dict, default_to, find, modify, insert, erase, AllAbove, IsSorted, keys}
pub use Maps.{
  find-modify, find-insert, find-erase, AllAbove-modify, AllAbove-erase, modify-IsSorted,
  erase-IsSorted, AllAbove-find, AllAbove-trans,
}
pub use Strings.{bytes_eq_iff, bytes_eq_refl, bytes_lt_irrefl, bytes_lt_trans, bytes_lt_total}
pub use Prim.Native.Nat.{ℕ, zero, suc, ◌+◌, ◌-◌, ◌*◌, ◌/◌, ◌%◌, ◌^◌, ◌≤◌, ◌<◌, min, max}
pub use mathlib.Core.Path.{◌≡◌, refl, sym, ap, ◌∙◌}
pub use mathlib.Core.Logic.{◌≢◌, ◌↔◌, ◌⊎◌, inl, inr}
pub use mathlib.Core.Bool.{Bool, true, false, not, ◌&&◌, ◌||◌}
pub use mathlib.Core.Option.{Option, none, some}
pub use mathlib.Core.List.{List, [], ◌∷◌, ◌++◌, map, append_assoc, append-nil}
pub use native.Mathlib.Omega.{arith}

-- ===== src/Prelude.antt =====
-- The names that every module of the development shares: numbers, lists, options, Boolean tests.
mod Tests
mod Lists
pub use Tests.*
unfoldable pub use Lists.*
pub use Prim.Native.Nat.{ℕ, zero, suc, ◌+◌, ◌-◌, ◌*◌, ◌/◌, ◌%◌, ◌^◌, ◌≤◌, ◌<◌, bit_xor}
pub use Prim.Native.String.{String}
pub use mathlib.Core.Path.{◌≡◌, refl, sym, ap, ap₂, ◌∙◌, subst}
pub use mathlib.Core.Logic.{◌≢◌, ◌↔◌, ◌⊎◌, inl, inr}
pub use mathlib.Core.Bool.{Bool, true, false, not, ◌&&◌, ◌||◌}
pub use mathlib.Core.Option.{Option, none, some}
pub use mathlib.Core.List.{
  List, [], ◌∷◌, ◌++◌, map, reverse, reverse-append, append_assoc, append-nil,
}
pub use native.Mathlib.Omega.{arith}

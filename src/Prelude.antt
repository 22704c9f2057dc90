-- ===== src/Prelude.antt =====
-- The names that the other modules share: the libraries', passed on, and those of the children:
-- tests on numbers, lists, keyed equality and finite maps, texts as bytes, machine words, integers
-- and the interface of `float64`.
mod Tests
mod Lists
mod Exists
mod EveryElement
mod Order
mod Equality
mod Maps
mod Texts
mod Words
mod Floats
pub use Tests.*
pub use Lists.*
unfoldable pub use Exists.*
pub use EveryElement.*
unfoldable pub use Order.*
pub use Equality.*
unfoldable pub use Maps.*
unfoldable pub use Texts.*
unfoldable pub use Words.*
pub use Floats.*
pub use Prim.Native.Nat.{ℕ, zero, suc, ◌+◌, ◌-◌, ◌*◌, ◌/◌, ◌%◌, ◌^◌, ◌≤◌, ◌<◌}
pub use Prim.Native.Nat.{bit_or}
pub use mathlib.Core.Path.{◌≡◌, refl, sym, ap, ◌∙◌, subst}
pub use mathlib.Core.Logic.{◌≢◌, ◌↔◌, ◌⊎◌, inl, inr}
pub use mathlib.Core.Bool.{Bool, true, false, not, ◌&&◌, ◌||◌}
pub use mathlib.Core.Option.{Option, none, some}
pub use mathlib.Core.List.{List, [], ◌∷◌, ◌++◌, map, append-nil, append_assoc}
pub use native.Mathlib.Omega.{arith}

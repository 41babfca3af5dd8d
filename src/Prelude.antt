-- ===== src/Prelude.antt =====
-- The names that all modules share: the libraries', passed on, and those of the children.
mod Tests
mod Sets
mod Maps
mod Order
mod Text
mod Sorting
mod Distinct
unfoldable pub use Tests.*
unfoldable pub use Sets.*
unfoldable pub use Maps.*
unfoldable pub use Order.*
unfoldable pub use Text.*
unfoldable pub use Sorting.*
unfoldable pub use Distinct.*
pub use Prim.Native.Nat.{ℕ, zero, suc, ◌+◌, ◌-◌, ◌*◌, ◌≤◌, ◌<◌}
pub use Prim.Native.String.{String, ◌++◌ as ◌<>◌}
pub use mathlib.Core.Path.{◌≡◌, refl, sym, ap, subst, ◌∙◌}
pub use mathlib.Core.Logic.{◌≢◌, ◌↔◌, ◌⊎◌, inl, inr}
pub use mathlib.Core.Bool.{Bool, true, false, not, ◌&&◌, ◌||◌}
pub use mathlib.Core.Option.{Option, none, some}
pub use mathlib.Core.List.{List, [], ◌∷◌, ◌++◌, map, foldl, Memᴰ, Permᴰ}
pub use native.Mathlib.Omega.{arith}
pub use text.Mathlib.TextEquality.{eq_iff}

-- ===== src/Base.antt =====
-- The names that the other modules share: the libraries', passed on, and those of the children:
-- Boolean tests, texts, sets of texts and dictionaries as the Python code uses them.
mod Tests
mod Texts
mod Sets
mod Dicts
mod Numbers
mod Splits
mod Sorted
mod Ints
unfoldable pub use Tests.*
unfoldable pub use Texts.*
unfoldable pub use Sets.*
unfoldable pub use Dicts.*
unfoldable pub use Numbers.*
unfoldable pub use Splits.*
unfoldable pub use Sorted.*
unfoldable pub use Ints.*
pub use Prim.Native.Nat.{ℕ, zero, suc, ◌+◌, ◌-◌, ◌*◌, ◌/◌, ◌%◌, ◌≤◌, ◌<◌}
pub use mathlib.Core.Path.{◌≡◌, refl, sym, ap, ◌∙◌}
pub use mathlib.Core.Logic.{◌≢◌, ◌↔◌, ◌⊎◌, inl, inr}
pub use mathlib.Core.Bool.{Bool, true, false, not, ◌&&◌, ◌||◌}
pub use mathlib.Core.Option.{Option, none, some}
pub use mathlib.Core.List.{List, [], ◌∷◌, ◌++◌, map}
pub use native.Mathlib.Omega.{arith}

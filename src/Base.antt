-- ===== src/Base.antt =====
-- The names that the other modules share: the libraries', passed on, Boolean tests on the native
-- numbers, texts as lists of bytes, and the reads and writes of a table of rows.
mod Tests
mod Strings
mod Rows
mod Integers
mod RowLaws
mod FindLaws
mod InLaws
pub use Tests.*
unfoldable pub use Strings.*
unfoldable pub use Rows.*
pub use Integers.*
pub use RowLaws.*
pub use InLaws.*
pub use FindLaws.*
pub use Prim.Native.Nat.{ℕ, zero, suc, ◌+◌, ◌-◌, ◌*◌, ◌≤◌, ◌<◌}
pub use mathlib.Core.Path.{◌≡◌, refl, sym, ap, ◌∙◌, subst}
pub use mathlib.Core.Logic.{◌≢◌, ◌↔◌, ◌⊎◌, inl, inr}
pub use mathlib.Core.Bool.{Bool, true, false, not, ◌&&◌, ◌||◌}
pub use mathlib.Core.Option.{Option, none, some}
pub use mathlib.Core.List.{List, [], ◌∷◌, ◌++◌, map}
pub use native.Mathlib.Omega.{arith}

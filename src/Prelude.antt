-- ===== src/Prelude.antt =====
-- The names that all modules share: the libraries', passed on, and those of the children. The
-- children hold what the Python code takes from its language: tests, comprehensions, `sorted`,
-- and the statements on a SQL table that the code sends to SQLite.
mod Tests
pub mod Lists
pub mod Sorting
pub mod Groups
pub mod Tables
pub mod Texts
unfoldable pub use Tests.*
pub use Prim.Native.Nat.{ℕ, zero, suc, ◌+◌, ◌-◌, ◌*◌, ◌/◌, ◌%◌, ◌≤◌, ◌<◌, max, min}
pub use Prim.Native.String.{String, ◌++◌ as ◌<>◌}
pub use mathlib.Core.Path.{◌≡◌, refl, sym, ap, ◌∙◌}
pub use mathlib.Core.Logic.{◌≢◌, ◌↔◌, ◌⊎◌, inl, inr}
pub use mathlib.Core.Bool.{Bool, true, false, not, ◌&&◌, ◌||◌}
pub use mathlib.Core.Option.{Option, none, some}
pub use mathlib.Core.List.{List, [], ◌∷◌, ◌++◌, map}
pub use native.Mathlib.Omega.{arith}

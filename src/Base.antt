-- ===== src/Base.antt =====
-- What every module of the development shares: the libraries' names, Boolean tests, lists over the
-- native numbers, and byte strings (Go's `string` and `[]byte`).
mod Tests
mod Lists
pub mod Bytes
pub mod Int
pub mod Table
pub use Tests.*
pub use Lists.*
pub use Int.{ℤ}
pub use Prim.Native.Nat.{ℕ, zero, suc, ◌+◌, ◌-◌, ◌*◌, ◌/◌, ◌%◌, ◌≤◌, ◌<◌}
pub use mathlib.Core.Path.{◌≡◌, refl, sym, ap, ◌∙◌, subst}
pub use mathlib.Core.Logic.{◌≢◌, ◌↔◌, ◌⊎◌, inl, inr}
pub use mathlib.Core.Bool.{Bool, true, false, not, ◌&&◌, ◌||◌}
pub use mathlib.Core.Option.{Option, none, some}
pub use mathlib.Core.List.{List, [], ◌∷◌, ◌++◌, map}
pub use native.Mathlib.Omega.{arith}

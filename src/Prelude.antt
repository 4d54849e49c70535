-- ===== src/Prelude.antt =====
-- The names that the modules share: the libraries', passed on, and those of the children.
-- Tests are Booleans on native numbers and texts, a Go map is an association list behind its
-- laws (Maps), a Go string is the list of its bytes (Bytes), a Go int is an integer (Int).
mod Tests
mod Lists
pub mod Transactions
pub mod Int
mod Bytes
mod Maps
unfoldable pub use Tests.*
unfoldable pub use Lists.*
unfoldable pub use Bytes.*
unfoldable pub use Maps.*
pub use Prim.Native.Nat.{ℕ, zero, suc, ◌+◌, ◌-◌, ◌*◌, ◌/◌, ◌%◌, ◌^◌, ◌≤◌, ◌<◌}
pub use mathlib.Core.Path.{◌≡◌, refl, sym, ap, ◌∙◌, subst}
pub use mathlib.Core.Logic.{◌≢◌, ◌↔◌, ◌⊎◌, inl, inr}
pub use mathlib.Core.Bool.{Bool, true, false, not, ◌&&◌, ◌||◌}
pub use mathlib.Core.Option.{Option, none, some}
pub use mathlib.Core.List.{List, [], ◌∷◌, ◌++◌, map}
pub use native.Mathlib.Omega.{arith}

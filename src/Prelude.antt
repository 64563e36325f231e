-- ===== src/Prelude.antt =====
-- The names that every module shares: the libraries', passed on, tests on numbers and texts,
-- integers, lists, and results of code that may throw.
pub mod Decimal
mod Tests
mod Lists
pub mod Int
mod Keys
pub use Tests.*
pub use Lists.*
pub use Keys.{Key, ◌===◌, ===_refl, string_key, pair_key, same_pair, same_pair_iff}
pub use Prim.Native.Nat.{ℕ, zero, suc, ◌+◌, ◌-◌, ◌*◌, ◌/◌, ◌%◌, ◌^◌, ◌≤◌, ◌<◌, min, max}
pub use Prim.Native.String.{String}
pub use mathlib.Core.Path.{◌≡◌, refl, sym, ap, ◌∙◌}
pub use mathlib.Core.Logic.{◌≢◌, ◌↔◌, ◌⊎◌, inl, inr}
pub use mathlib.Core.Bool.{Bool, true, false, ◌&&◌, ◌||◌, not}
pub use mathlib.Core.Option.{Option, none, some}
pub use mathlib.Core.List.{List, [], ◌∷◌, ◌++◌, map}
pub use native.Mathlib.Omega.{arith}

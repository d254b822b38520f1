-- ===== src/Prelude.antt =====
-- The names that all modules share: the libraries', passed on, and those of the children below
-- (tests on numbers and texts, lists over the native numbers, exceptions as values, 64-bit
-- counters, string-keyed tables).
mod Tests
mod Lists
mod Errors
mod Word
mod Maps
mod Names
pub mod Int
pub use Tests.*
pub use Lists.*
pub use Errors.*
unfoldable pub use Word.*
unfoldable pub use Maps.*
pub use Names.*
pub use Prim.Native.Nat.{ℕ, zero, suc, ◌+◌, ◌-◌, ◌*◌, ◌/◌, ◌%◌, ◌^◌, ◌≤◌, ◌<◌, min, max}
pub use Prim.Native.String.{String, ◌++◌ as concat}
pub use mathlib.Core.Path.{◌≡◌, refl, sym, ap, subst, ◌∙◌}
pub use mathlib.Core.Logic.{◌≢◌, ◌↔◌, ◌⊎◌, inl, inr}
pub use mathlib.Core.Bool.{Bool, true, false, not, ◌&&◌, ◌||◌}
pub use mathlib.Core.Option.{Option, none, some}
pub use mathlib.Core.List.{List, [], ◌∷◌, ◌++◌, map, reverse, append_assoc, append-nil}
pub use native.Mathlib.Omega.{arith}
pub use text.Mathlib.Text.{◌==◌ as str_eq}
pub use text.Mathlib.TextEquality.{eq_iff}
pub use text.Mathlib.TextPositions.{eq_refl}

-- ===== src/Base.antt =====
-- The names that the other modules share: the libraries', passed on, and those of the children.
pub mod Equality
pub mod Lists
pub mod Int
pub mod Str
pub mod Digits
pub use Equality.{Eq, ◌==◌, if◌then◌else◌, leb, ltb, Bool-cases, Option-cases}
unfoldable pub use Equality.{nat_eq}
pub use Lists.{length, take, drop, select, select_first, is_none, is_some}
pub use Int.{ℤ, pos, negsuc}
pub use Str.{Text, text}
unfoldable pub use Str.{text_eq}
pub use Prim.Native.Nat.{ℕ, zero, suc, ◌+◌, ◌-◌, ◌*◌, ◌/◌, ◌%◌, ◌≤◌, ◌<◌}
pub use mathlib.Core.Path.{◌≡◌, refl, sym, ap, ◌∙◌}
pub use mathlib.Core.Logic.{◌≢◌, ◌↔◌, ◌⊎◌, inl, inr}
pub use mathlib.Core.Bool.{Bool, true, false, ◌&&◌, ◌||◌, not}
pub use mathlib.Core.Option.{Option, none, some}
pub use mathlib.Core.List.{List, [], ◌∷◌, ◌++◌, map}
pub use native.Mathlib.Omega.{arith}

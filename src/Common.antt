-- ===== src/Common.antt =====
-- The names that every part shares: the libraries', passed on, and those of the child modules.
mod Tests
mod Lists
mod Results
mod Int
mod Strings
mod Values
pub use Tests.*
pub use Lists.*
pub use Results.*
pub use Int.*
unfoldable pub use Strings.*
pub use Values.{Json, null, boolean, number, string, array, object, Items, Fields, Dict}
unfoldable pub use Values.{setdefault}
pub use Prim.Native.Nat.{ℕ, zero, suc, ◌+◌, ◌-◌, ◌*◌, ◌/◌, ◌%◌, ◌^◌, ◌≤◌, ◌<◌, min, max}
pub use Prim.Native.String.{String}
pub use mathlib.Core.Path.{◌≡◌, refl, sym, ap, ◌∙◌, subst}
pub use mathlib.Core.Logic.{◌≢◌, ◌↔◌, ◌⊎◌, inl, inr}
pub use mathlib.Core.Bool.{Bool, true, false, not, ◌&&◌, ◌||◌}
pub use mathlib.Core.Option.{Option, none, some}
pub use mathlib.Core.List.{List, [], ◌∷◌, ◌++◌, map}
pub use native.Mathlib.Omega.{arith}
pub use text.Mathlib.TextEquality.{eq_iff}

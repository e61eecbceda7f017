-- ===== src/Prelude.antt =====
-- The names that all modules share: the libraries', passed on, and those of its children.
-- `==` compares texts; numbers are compared by `nat_eq`, `ltb` and `leb`.
mod Tests
mod Lists
mod Int
mod Raise
mod Dicts
mod Texts
mod Entries
pub use Tests.*
pub use Lists.*
pub use Int.*
pub use Raise.*
unfoldable pub use Dicts.*
unfoldable pub use Texts.*
unfoldable pub use Entries.*
pub use Prim.Native.Nat.{ℕ, zero, suc, ◌+◌, ◌-◌, ◌*◌, ◌/◌, ◌%◌, ◌^◌, ◌≤◌, ◌<◌, min, max}
pub use Prim.Native.String.{String}
pub use text.Mathlib.Text.{◌==◌}
pub use text.Mathlib.TextEquality.{eq_iff}
pub use mathlib.Core.Path.{◌≡◌, refl, sym, ap, ◌∙◌}
pub use mathlib.Core.Logic.{◌≢◌, ◌↔◌, ◌⊎◌, inl, inr}
pub use mathlib.Core.Bool.{Bool, true, false, not, ◌&&◌, ◌||◌}
pub use mathlib.Core.Option.{Option, none, some}
pub use mathlib.Core.List.{List, [], ◌∷◌, ◌++◌, map}
pub use native.Mathlib.Omega.{arith}

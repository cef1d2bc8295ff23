-- ===== src/Prelude.antt =====
-- The names that the development shares: the libraries', passed on, and those of the children.
pub mod Tests
pub mod Eq
pub mod Lists
pub mod Text
pub mod Int
pub use Tests.*
pub use Eq.{Equality, ◌==◌, nat_equality, list_equality, ==_refl, ==→eq, ==→ne, ne→==}
unfoldable pub use Eq.{list_beq}
pub use Lists.*
pub use Text.{Bytes, codes, slash}
pub use Prim.Native.Nat.{ℕ, zero, suc, ◌+◌, ◌-◌, ◌*◌, ◌/◌, ◌%◌, ◌^◌, ◌≤◌, ◌<◌}
pub use mathlib.Core.Path.{◌≡◌, refl, sym, ap, ◌∙◌, subst}
pub use mathlib.Core.Logic.{◌≢◌, ◌↔◌, ◌⊎◌, inl, inr}
pub use mathlib.Core.Bool.{Bool, true, false, not, ◌&&◌, ◌||◌}
pub use mathlib.Core.Option.{Option, none, some}
pub use mathlib.Core.List.{List, [], ◌∷◌, ◌++◌, map}
pub use native.Mathlib.Omega.{arith}

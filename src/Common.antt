-- ===== src/Common.antt =====
-- Shared by all components: the libraries' names, Boolean tests on numbers, lists over the native
-- numbers, and the byte ranges that the validators' character classes are built from.
mod Tests
mod Lists
pub mod Ledger
mod Octets
pub mod Checked
pub use Tests.*
pub use Lists.*
pub use Octets.*
pub use Prim.Native.Nat.{ℕ, zero, suc, ◌+◌, ◌-◌, ◌*◌, ◌/◌, ◌%◌, ◌^◌, ◌≤◌, ◌<◌}
pub use mathlib.Core.Path.{subst, subst⁻¹, ◌≡◌, refl, sym, ap, ◌∙◌}
pub use mathlib.Core.Logic.{◌≢◌, ◌↔◌, ◌⊎◌, inl, inr}
pub use mathlib.Core.Bool.{Bool, true, false, not, ◌&&◌, ◌||◌}
pub use mathlib.Core.Option.{Option, none, some}
pub use mathlib.Core.List.{List, [], ◌∷◌, ◌++◌}
pub use native.Mathlib.Omega.{arith}

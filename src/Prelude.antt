-- ===== src/Prelude.antt =====
-- The names that all modules share: the libraries', passed on, and those of the children.
mod Tests
mod Bytes
mod Lists
mod Maps
mod MapLaws
mod MapPerm
mod Errors
pub mod Int
pub mod Buffers
pub mod Exec
pub mod Keeps
pub mod Sums
pub use Tests.*
unfoldable pub use Bytes.*
unfoldable pub use Lists.*
unfoldable pub use Maps.*
pub use MapLaws.*
pub use MapPerm.*
pub use Errors.*
pub use Prim.Native.Nat.{ℕ, zero, suc, ◌+◌, ◌-◌, ◌*◌, ◌^◌, ◌≤◌, ◌<◌}
pub use mathlib.Core.Path.{◌≡◌, refl, sym, ap, ◌∙◌, subst}
pub use mathlib.Core.Logic.{◌≢◌, ◌↔◌, ◌⊎◌, inl, inr}
pub use mathlib.Core.Bool.{Bool, true, false, not, ◌&&◌, ◌||◌}
pub use mathlib.Core.Option.{Option, none, some}
pub use mathlib.Core.List.{List, [], ◌∷◌, ◌++◌, map}
pub use native.Mathlib.Omega.{arith}

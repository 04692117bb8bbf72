-- ===== src/Base.antt =====
-- The names that the modules share: the libraries', and those of the children.
mod Equality
mod Tests
mod Lists
mod Errors
mod Instant
pub mod Sorting
pub mod Bytes
pub mod Text
pub mod Lines
pub mod Reading
pub mod Files
unfoldable pub use Equality.*
pub use Tests.*
pub use Lists.*
pub use Errors.*
unfoldable pub use Instant.*
pub use Prim.Native.Nat.{ℕ, zero, suc, ◌+◌, ◌-◌, ◌*◌, ◌/◌, ◌%◌, ◌≤◌, ◌<◌, min}
pub use Prim.Native.String.{String, ◌++◌ as ◌<>◌}
pub use mathlib.Core.Path.{◌≡◌, refl, sym, ap, ap₂, subst, ◌∙◌}
pub use mathlib.Core.Logic.{◌≢◌, ◌↔◌, ◌⊎◌, inl, inr}
pub use mathlib.Core.Bool.{Bool, true, false, not, ◌&&◌, ◌||◌}
pub use mathlib.Core.Option.{Option, none, some}
pub use mathlib.Core.List.{List, [], ◌∷◌, ◌++◌, map, append_assoc, append-nil}
pub use native.Mathlib.Omega.{arith}

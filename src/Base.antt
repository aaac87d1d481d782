-- ===== src/Base.antt =====
-- The names that every part shares: the libraries', passed on, and those of the children, which
-- hold the Boolean tests, the lists over native numbers and the actions that may fail.
mod Tests
mod Lists
mod Actions
pub use Tests.*
unfoldable pub use Lists.{contains}
pub use Lists.*
unfoldable pub use Actions.{each}
pub use Actions.*
pub use Prim.Native.Nat.{ℕ, zero, suc, ◌+◌, ◌-◌, ◌*◌, ◌/◌, ◌%◌, ◌≤◌, ◌<◌}
pub use Prim.Native.String.{String}
pub use mathlib.Core.Path.{◌≡◌, refl, sym, ap, ◌∙◌}
pub use mathlib.Core.Logic.{◌≢◌, ◌↔◌, ◌⊎◌, inl, inr}
pub use mathlib.Core.Bool.{Bool, true, false, not, ◌&&◌, ◌||◌}
pub use mathlib.Core.Option.{Option, none, some}
pub use mathlib.Core.List.{List, [], ◌∷◌, ◌++◌, map, append-nil, append_assoc}
pub use native.Mathlib.Omega.{arith}

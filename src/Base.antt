-- ===== src/Base.antt =====
-- Names that every module shares: the libraries', passed on, and the program's own lists,
-- tests and the state monad with exceptions.
mod Tests
mod Lists
mod Effects
mod Outcomes
mod Invariants
mod Text
pub use Tests.*
pub use Lists.*
pub use Effects.*
pub use Outcomes.*
pub use Invariants.*
pub use Text.*
pub use Prim.Native.Nat.{ℕ, zero, suc, ◌+◌, ◌-◌, ◌*◌, ◌/◌, ◌%◌, ◌^◌, ◌≤◌, ◌<◌, min, bit_and, bit_or}
pub use mathlib.Core.Path.{◌≡◌, refl, sym, ap, ◌∙◌}
pub use mathlib.Core.Logic.{◌≢◌, ◌⊎◌, inl, inr}
pub use mathlib.Core.Bool.{Bool, true, false, not, ◌&&◌, ◌||◌}
pub use mathlib.Core.Option.{Option, none, some}
pub use mathlib.Core.List.{List, [], ◌∷◌, ◌++◌, map, append-nil, append_assoc}
pub use native.Mathlib.Omega.{arith}

-- ===== src/Common.antt =====
-- The names that the other modules share: the library's, passed on, and those of the children
-- (Boolean tests, lists over native numbers, byte strings, C integers and outcomes of C code).
mod Tests
mod Lists
mod Memory
mod Int
mod Copy
mod Split
pub use Tests.*
pub use Lists.*
pub use Memory.*
pub use Int.*
pub use Copy.*
pub use Split.*
pub use Prim.Native.Nat.{ℕ, zero, suc, ◌+◌, ◌-◌, ◌*◌, ◌/◌, ◌%◌, ◌^◌, ◌≤◌, ◌<◌}
pub use mathlib.Core.Path.{◌≡◌, refl, sym, ap, subst, ◌∙◌}
pub use mathlib.Core.Logic.{◌≢◌, ◌↔◌, ◌⊎◌, inl, inr}
pub use mathlib.Core.Bool.{Bool, true, false, not, ◌&&◌, ◌||◌}
pub use mathlib.Core.Option.{Option, none, some}
pub use mathlib.Core.List.{List, [], ◌∷◌, ◌++◌, map, append_assoc, append-nil, map-append}
pub use native.Mathlib.Omega.{arith}

-- ===== src/Base.antt =====
-- What the modules of all components share: names of the libraries, passed on, tests on numbers
-- and texts, lists and arrays over the native numbers, C integers.
mod Tests
mod Lists
pub mod Counts
pub mod Bytes
mod Slice
mod Int
pub mod StrMap
pub mod NatMap
pub mod Double
pub mod Results
pub use Tests.*
pub use Lists.*
pub use Slice.*
pub use Int.*
pub use Prim.Native.Nat.{ℕ, zero, suc, ◌+◌, ◌-◌, ◌*◌, ◌/◌, ◌%◌, ◌^◌, ◌≤◌, ◌<◌, min, max}
pub use Prim.Native.String.{String}
pub use mathlib.Core.Path.{◌≡◌, refl, sym, ap, ap₂, subst, ◌∙◌}
pub use mathlib.Core.Logic.{◌≢◌, ◌↔◌, ◌⊎◌, inl, inr}
pub use mathlib.Core.Bool.{Bool, true, false, not, ◌&&◌, ◌||◌}
pub use mathlib.Core.Option.{Option, none, some}
pub use mathlib.Core.List.{List, [], ◌∷◌, ◌++◌, map, append-nil, append_assoc}
pub use native.Mathlib.Omega.{arith}

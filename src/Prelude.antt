-- ===== src/Prelude.antt =====
-- The names that the other modules share: the libraries' names, passed on, Boolean tests, lists
-- measured by native numbers, and the C strings of the program with the libc calls on them.
mod Tests
mod Lists
mod Chars
mod Int
unfoldable pub use Tests.*
pub use Lists.*
pub use Int.*
unfoldable pub use Chars.*
pub use Prim.Native.Nat.{ℕ, zero, suc, ◌+◌, ◌-◌, ◌*◌, ◌/◌, ◌%◌, ◌^◌, ◌≤◌, ◌<◌, min}
pub use Prim.Native.String.{String}
pub use mathlib.Core.Path.{◌≡◌, refl, sym, ap, ◌∙◌}
pub use mathlib.Core.Logic.{◌≢◌, ◌↔◌, ◌⊎◌, inl, inr}
pub use mathlib.Core.Bool.{Bool, true, false, ◌&&◌, ◌||◌, not}
pub use mathlib.Core.Option.{Option, none, some}
pub use mathlib.Core.List.{List, [], ◌∷◌, ◌++◌, map, append-nil, append_assoc}
pub use native.Mathlib.Omega.{arith}

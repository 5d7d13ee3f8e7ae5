-- ===== src/Common.antt =====
-- The names that the other modules share: the libraries', passed on, and those of three children.
-- `Tests` has Boolean tests on numbers, `Lists` lists over the native numbers, `Text` the
-- operations of `std::string` that the sources call. `Search` has the laws of those operations.
mod Tests
mod Lists
mod Text
pub mod Search
pub use Tests.*
pub use Lists.*
pub use Text.{Bytes, codes, is_empty, starts_with, substr, Lacks}
unfoldable pub use Text.{find, rfind, filename}
pub use Prim.Native.Nat.{ℕ, zero, suc, ◌+◌, ◌-◌, ◌*◌, ◌%◌, ◌^◌, ◌≤◌, ◌<◌}
pub use mathlib.Core.Path.{◌≡◌, refl, sym, ap, subst, ◌∙◌}
pub use mathlib.Core.Logic.{◌≢◌, ◌↔◌, ◌⊎◌, inl, inr}
pub use mathlib.Core.Bool.{Bool, true, false, not, ◌&&◌, ◌||◌}
pub use mathlib.Core.Option.{Option, none, some}
pub use mathlib.Core.List.{List, [], ◌∷◌, ◌++◌, map, append_assoc, append-nil}
pub use native.Mathlib.Omega.{arith}

-- ===== src/Base.antt =====
-- The names that the other modules share: the libraries', passed on, and those of the children.
mod Tests
mod Lists
pub mod Assoc
pub mod Keys
mod Words
mod Strings
mod Errors
pub use Tests.*
pub use Lists.*
pub use Words.*
pub use Errors.{
  Exn, Outcome, invalid_argument, runtime_error, out_of_range, length_error, returns, throws,
}
pub use Strings.{Str, Str_eq, str}
unfoldable pub use Strings.{Str-discrete}
pub use Assoc.{DecEq, ℕ_eq, Unique}
unfoldable pub use Assoc.{lookup, insert, erase}
pub use Keys.{Distinct}
unfoldable pub use Keys.{contains, remove, remove_first}
pub use Prim.Native.Nat.{ℕ, zero, suc, ◌+◌, ◌-◌, ◌*◌, ◌/◌, ◌%◌, ◌^◌, ◌≤◌, ◌<◌}
pub use mathlib.Core.Path.{◌≡◌, refl, sym, ap, ◌∙◌, subst}
pub use mathlib.Core.Logic.{◌≢◌, ◌↔◌, ◌⊎◌, inl, inr, ite, dite, if_pos, if_neg}
pub use mathlib.Core.Bool.{Bool, true, false, not, ◌&&◌, ◌||◌}
pub use mathlib.Core.Option.{Option, none, some}
pub use mathlib.Core.List.{List, [], ◌∷◌, ◌++◌, map}
pub use native.Mathlib.Omega.{arith}
unfoldable pub use native.Mathlib.Decide.{dec_lt, dec_le, ℕ_discrete}

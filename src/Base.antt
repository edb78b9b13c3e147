-- ===== src/Base.antt =====
-- The names that every module shares: the libraries', passed on, and those of the children.
-- Strings (`PString`, an alias of `std::string`) are lists of bytes, and the maps and sets of the
-- C++ library are association lists (`Dict`) and lists without repetition (`Members`).
mod Tests
mod Lists
mod Int
mod Text
pub mod Dict
pub mod Members
pub mod Table
pub use Tests.*
pub use Lists.*
unfoldable pub use Int.*
unfoldable pub use Text.*
pub use Prim.Native.Nat.{ℕ, zero, suc, ◌+◌, ◌-◌, ◌*◌, ◌/◌, ◌%◌, ◌^◌, ◌≤◌, ◌<◌, min, max}
pub use mathlib.Core.Path.{◌≡◌, refl, sym, ap, ap₂, subst, ◌∙◌}
pub use mathlib.Core.Logic.{◌≢◌, ◌↔◌, ◌⊎◌, inl, inr}
pub use mathlib.Core.Bool.{Bool, true, false, not, ◌&&◌, ◌||◌}
pub use mathlib.Core.Option.{Option, none, some}
pub use mathlib.Core.List.{List, [], ◌∷◌, ◌++◌, map, append_assoc, append-nil}
pub use native.Mathlib.Omega.{arith}

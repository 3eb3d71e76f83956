-- ===== src/Prelude.antt =====
-- The names that the other modules share: the libraries', passed on, and those of the children.
mod Tests
mod Lists
mod Slices
mod Words
mod Splice
mod Sums
pub mod Run
pub use Tests.*
pub use Lists.*
pub use Slices.*
unfoldable pub use Sums.{suma}
pub use Sums.{suma-append, suma-set, suma_le}
unfoldable pub use Splice.{splice}
pub use Splice.{
  length-splice, slice-splice_self, get_elem?-splice_before, get_elem?-splice_after,
  slice-splice_other,
}
unfoldable pub use Words.{copy_from, strlen}
pub use Words.{
  u32_mod, u64_mod, sub32, IsByte, IsU32, le32, un32, c_string, IsText, strlen-c_string,
}
pub use Prim.Native.Nat.{ℕ, zero, suc, ◌+◌, ◌-◌, ◌*◌, ◌/◌, ◌%◌, ◌^◌, ◌≤◌, ◌<◌, min, max}
pub use mathlib.Core.Path.{◌≡◌, refl, sym, ap, ◌∙◌, subst}
pub use mathlib.Core.Logic.{◌≢◌, ◌↔◌, ◌⊎◌, inl, inr}
pub use mathlib.Core.Bool.{Bool, true, false, ◌&&◌, ◌||◌, not}
pub use mathlib.Core.Option.{Option, none, some}
pub use mathlib.Core.List.{List, [], ◌∷◌, ◌++◌, append_assoc, append-nil, map}
pub use native.Mathlib.Omega.{arith}
unfoldable pub use native.Mathlib.Decide.{dec_lt, dec_le, ℕ_discrete}

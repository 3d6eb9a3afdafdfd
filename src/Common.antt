-- ===== src/Common.antt =====
-- The names that the other modules share: the libraries', passed on, and those of the children.
pub mod Tests
pub mod Lists
pub mod Texts
pub mod Int
pub mod Strings
pub mod Json
pub mod Decimal
pub mod Outcome
pub mod Paging
pub mod BigInt
pub mod Steps
unfoldable pub use Strings.{codes, starts_with, split_on, is_space, trim_start, trim_end, trim}
pub use Strings.{
  HasNoSpace, trim-HasNoSpace, Lacks, join_with, join_with-split_on, split_on-Lacks,
  split_on_of_Lacks, split_on-append,
}
pub use Tests.*
pub use Lists.*
unfoldable pub use Texts.{Text, text_eq, Dict, lookup, insert}
pub use Texts.{
  is_empty, text_eq_refl, text_eq_iff, lookup-insert, lookup-insert_self, lookup-insert_ne,
}
pub use Prim.Native.Nat.{ℕ, zero, suc, ◌+◌, ◌-◌, ◌*◌, ◌/◌, ◌%◌, ◌^◌, ◌≤◌, ◌<◌, min, max}
pub use mathlib.Core.Path.{◌≡◌, refl, sym, ap, ◌∙◌}
pub use mathlib.Core.Logic.{◌≢◌, ◌↔◌, ◌⊎◌, inl, inr}
pub use mathlib.Core.Bool.{Bool, true, false, ◌&&◌, ◌||◌, not}
pub use mathlib.Core.Option.{Option, none, some}
pub use mathlib.Core.List.{List, [], ◌∷◌, ◌++◌, map, append-nil, append_assoc, reverse, filter}
pub use native.Mathlib.Omega.{arith}

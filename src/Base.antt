-- ===== src/Base.antt =====
-- The names, operators and lemmas that the components share: the libraries' names passed on,
-- Boolean tests and byte texts, lists measured by native numbers, and Go's 64-bit integers.
mod Tests
mod Lists
mod Bytes
mod Sorting
pub use Tests.*
pub use Lists.*
unfoldable pub use Bytes.{same_bytes}
unfoldable pub use Sorting.{text_lt, insert_sorted, sort_by}
pub use Sorting.{
  All, All-append, All-imp, Pairwise, length-sort_by, insert_sorted-All, sort_by-All,
  sort_by-Pairwise, take-All, take-Pairwise,
}
pub use Bytes.{same_bytes_refl, same_bytes-eq}
pub use Prim.Native.Nat.{ℕ, zero, suc, ◌+◌, ◌-◌, ◌*◌, ◌/◌, ◌%◌, ◌^◌, ◌≤◌, ◌<◌, min, max}
pub use Prim.Native.String.{String, len, ◌++◌ as concat}
pub use mathlib.Core.Path.{◌≡◌, refl, sym, ap, ◌∙◌, subst}
pub use mathlib.Core.Logic.{◌≢◌, ◌↔◌, ◌⊎◌, inl, inr}
pub use mathlib.Core.Bool.{Bool, true, false, not, ◌&&◌, ◌||◌}
pub use mathlib.Core.Option.{Option, none, some}
pub use mathlib.Core.List.{List, [], ◌∷◌, ◌++◌, map}
pub use native.Mathlib.Omega.{arith}
pub use text.Mathlib.Text.{◌==◌ as str_eq}
pub use text.Mathlib.TextEquality.{eq_iff}
pub use text.Mathlib.TextPositions.{eq_refl}

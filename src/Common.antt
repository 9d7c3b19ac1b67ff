-- ===== src/Common.antt =====
-- The names that all modules share: the libraries' and those of the children.
mod Tests
mod Lists
mod Maps
mod Text
mod Members
mod Numbered
pub use Tests.*
pub use Lists.*
pub use Members.*
pub use Maps.{Dict, lookup-insert}
unfoldable pub use Maps.{lookup, insert, remove, values}
pub use Numbered.{Indexed, All-put_at, All-remove_at, find_at-All}
unfoldable pub use Numbered.{find_at, put_at, remove_at, entries_at}
pub use Text.{str_eq, is_space, is_some_text}
unfoldable pub use Text.{trim, text_length, take_units, starts_with, includes}
pub use Prim.Native.Nat.{ℕ, zero, suc, ◌+◌, ◌-◌, ◌*◌, ◌/◌, ◌%◌, ◌≤◌, ◌<◌, min}
pub use Prim.Native.String.{String}
pub use mathlib.Core.Path.{◌≡◌, refl, sym, ap, ap₂, ◌∙◌, subst}
pub use mathlib.Core.Logic.{◌≢◌, ◌↔◌, ◌⊎◌, inl, inr}
pub use mathlib.Core.Bool.{Bool, true, false, not, ◌&&◌, ◌||◌}
pub use mathlib.Core.Option.{Option, none, some}
pub use mathlib.Core.List.{List, [], ◌∷◌, ◌++◌, map, append-nil, append_assoc}
pub use native.Mathlib.Omega.{arith}
pub use text.Mathlib.TextEquality.{eq_iff}
pub use text.Mathlib.TextPositions.{eq_refl}

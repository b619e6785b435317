-- ===== src/Prelude.antt =====
-- The names that the other modules share: the libraries', passed on, and those of the children.
mod Tests
mod Equality
mod Lists
mod Dicts
mod Results
mod Bools
pub use Tests.*
pub use Lists.*
pub use Bools.*
pub use Results.*
pub use Equality.{Eq, ◌==◌, contains, contains-append, ==_refl, ==_iff}
unfoldable pub use Equality.{nat_eq, string_eq, list_eq}
pub use Dicts.{
  Dict, NodupKeys, lookup-insert, lookup-erase, lookup-erase_ne, insert-NodupKeys, erase-NodupKeys,
  keys-insert_fresh, contains-keys, lookup-nil, lookup-cons, insert_fresh, dict_laws,
  has_key-contains, has_key-false, keys-erase_absent, is_nonempty-keys,
}
unfoldable pub use Dicts.{lookup, insert, erase, keys, has_key}
pub use Prim.Native.Nat.{ℕ, zero, suc, ◌+◌, ◌-◌, ◌*◌, ◌/◌, ◌%◌, ◌^◌, ◌≤◌, ◌<◌, min, max}
pub use Prim.Native.String.{String}
pub use mathlib.Core.Path.{◌≡◌, refl, sym, ap, ap₂, subst, ◌∙◌}
pub use mathlib.Core.Logic.{◌≢◌, ◌↔◌, ◌⊎◌, inl, inr, ite, dite, if_pos, if_neg}
pub use mathlib.Core.Bool.{Bool, true, false, not, ◌&&◌, ◌||◌}
pub use mathlib.Core.Option.{Option, none, some}
pub use mathlib.Core.List.{List, [], ◌∷◌, ◌++◌, map}
pub use native.Mathlib.Omega.{arith}
unfoldable pub use native.Mathlib.Decide.{dec_lt, dec_le, ℕ_discrete}

-- ===== src/Base.antt =====
-- The names that the other modules share: the libraries', passed on, and those of the children.
mod Tests
mod Lists
mod Encoding
mod Maps
pub mod Results
pub mod Partial
pub use Tests.*
pub use Lists.*
unfoldable pub use Encoding.{compare_bytes, put_le, put_be, get_le, get_be, split_at}
pub use Encoding.*
unfoldable pub use Maps.{lookup, insert, erase}
pub use Maps.{Dict, lookup-insert, lookup-erase}
pub use Results.{Outcome, ok, err, panic, assert, or_panic, Outcome-cases}
pub use Prim.Native.Nat.{
  ℕ, zero, suc, ◌+◌, ◌-◌, ◌*◌, ◌/◌, ◌%◌, ◌^◌, ◌≤◌, ◌<◌, min, compare, Ordering,
}
pub use mathlib.Core.Path.{◌≡◌, refl, sym, ap, ap₂, subst, subst₂, ◌∙◌, fun_ext}
pub use mathlib.Core.Logic.{◌≢◌, ◌↔◌, ◌⊎◌, inl, inr}
pub use mathlib.Core.Bool.{Bool, true, false, not, ◌&&◌, ◌||◌}
pub use mathlib.Core.Option.{Option, none, some}
pub use mathlib.Core.List.{List, [], ◌∷◌, ◌++◌, map, append-nil, append_assoc}
pub use native.Mathlib.Omega.{arith}

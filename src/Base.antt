-- ===== src/Base.antt =====
-- What the modules share: the libraries' names, passed on, Boolean tests, equality by instance,
-- results that carry an error, and lists over the native numbers.
mod Tests
mod Results
mod Lists
mod Maps
pub use Tests.*
pub use Results.*
pub use Lists.*
unfoldable pub use Maps.{lookup, insert, contains, add_key}
pub use Maps.{lookup-insert, contains-add_key, contains-append}
pub use Prim.Native.Nat.{ℕ, zero, suc, ◌+◌, ◌-◌, ◌*◌, ◌/◌, ◌%◌, ◌^◌, ◌≤◌, ◌<◌, min, max}
pub use Prim.Native.String.{String}
pub use mathlib.Core.Path.{◌≡◌, refl, sym, ap, ◌∙◌, subst}
pub use mathlib.Core.Logic.{◌≢◌, ◌↔◌, ◌⊎◌, inl, inr}
pub use mathlib.Core.Bool.{Bool, true, false, not, ◌&&◌, ◌||◌}
pub use mathlib.Core.Option.{Option, none, some}
pub use mathlib.Core.List.{
  List, [], ◌∷◌, ◌++◌, map, reverse, reverse-cons, reverse-reverse, append-nil, append_assoc,
}
pub use native.Mathlib.Omega.{arith}

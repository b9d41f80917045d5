-- ===== src/Common.antt =====
-- Names, tests and list functions that the modules of every component share.
mod Tests
mod Lists
mod Words
mod Maps
mod Decimal
mod Texts
mod Results
mod Orders
pub use Tests.*
pub use Lists.*
pub use Words.*
unfoldable pub use Maps.{lookup, put, remove, has}
pub use Maps.*
unfoldable pub use Decimal.{show, read}
pub use Decimal.*
unfoldable pub use Texts.{join}
pub use Texts.*
pub use Results.*
pub use Orders.*
pub use text.Mathlib.TextLemmas.{
  nil-append, append-nil as text_append-nil, append_assoc as text_append_assoc,
}
pub use Prim.Native.Nat.{ℕ, zero, suc, ◌+◌, ◌-◌, ◌*◌, ◌/◌, ◌%◌, ◌≤◌, ◌<◌}
pub use Prim.Native.String.{String}
pub use mathlib.Core.Path.{◌≡◌, refl, sym, ap, subst, ◌∙◌}
pub use mathlib.Core.Logic.{◌≢◌, ◌↔◌, ◌⊎◌, inl, inr}
pub use mathlib.Core.Bool.{Bool, true, false, not, ◌&&◌, ◌||◌}
pub use mathlib.Core.Option.{Option, none, some, some-injective}
pub use mathlib.Core.List.{List, [], ◌∷◌, ◌++◌, map}
pub use native.Mathlib.Omega.{arith}
pub use text.Mathlib.TextEquality.{eq_iff}
pub use text.Mathlib.TextPositions.{eq_refl}

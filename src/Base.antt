-- ===== src/Base.antt =====
-- The names that the modules of the development share: those of the libraries, passed on, and the
-- tests, integers, lists, texts and dictionaries of the children.
mod Tests
mod Lists
mod Equality
mod Strings
mod Maps
mod Integers
mod Results
pub mod Texts
mod Strconv
pub use Tests.*
pub use Lists.*
pub use Equality.*
unfoldable pub use Strings.*
unfoldable pub use Maps.*
unfoldable pub use Integers.*
pub use Results.*
unfoldable pub use Strconv.*
pub use Prim.Native.Nat.{ℕ, zero, suc, ◌+◌, ◌-◌, ◌*◌, ◌/◌, ◌%◌, ◌^◌, ◌≤◌, ◌<◌, min}
pub use mathlib.Core.Path.{◌≡◌, refl, sym, ap, ◌∙◌, subst}
pub use mathlib.Core.Logic.{◌≢◌, ◌↔◌, ◌⊎◌, inl, inr}
pub use mathlib.Core.Bool.{Bool, true, false, not, ◌&&◌, ◌||◌}
pub use mathlib.Core.Option.{Option, none, some}
pub use mathlib.Core.List.{List, [], ◌∷◌, ◌++◌, map, append-nil, append_assoc, map-append}
pub use native.Mathlib.Omega.{arith}

-- ===== src/Base.antt =====
-- What every module shares: library names passed on, tests on numbers, lists measured by the
-- native numbers, texts as sequences of UTF-16 code units, and insertion-ordered maps.
mod Tests
mod Lists
mod Slices
mod Texts
mod PathTexts
pub mod OrderedMap
pub mod Int
pub mod Results
pub mod Decimal
pub use Tests.*
pub use Lists.*
unfoldable pub use Slices.*
pub use Texts.*
unfoldable pub use PathTexts.*
pub use Prim.Native.Nat.{ℕ, zero, suc, ◌+◌, ◌-◌, ◌*◌, ◌/◌, ◌%◌, ◌^◌, ◌≤◌, ◌<◌, min, max}
pub use mathlib.Core.Path.{◌≡◌, refl, sym, ap, ◌∙◌, subst}
pub use mathlib.Core.Logic.{◌≢◌, ◌↔◌, ◌⊎◌, inl, inr}
pub use mathlib.Core.Bool.{Bool, true, false, not, ◌&&◌, ◌||◌}
pub use mathlib.Core.Option.{Option, none, some}
pub use mathlib.Core.List.{List, [], ◌∷◌, ◌++◌, map, append-nil, append_assoc}
pub use native.Mathlib.Omega.{arith}
unfoldable pub use native.Mathlib.Decide.{dec_lt, ℕ_discrete}

-- ===== src/Prelude.antt =====
-- The names that the other modules share: the libraries', passed on, the Boolean tests, the
-- lists measured and indexed by native numbers, and the outcomes of fallible code.
mod Tests
mod Lists
mod Slices
mod Quantifiers
mod Counts
mod Maps
mod MapLaws
mod Words
mod Effects
mod Bits
pub use Tests.*
unfoldable pub use Lists.*
pub use Slices.*
pub use Quantifiers.*
unfoldable pub use Maps.*
pub use MapLaws.*
pub use Counts.*
pub use Words.*
unfoldable pub use Bits.*
pub use Effects.*
pub use Prim.Native.Nat.{ℕ, zero, suc, ◌+◌, ◌-◌, ◌*◌, ◌/◌, ◌%◌, ◌^◌, ◌≤◌, ◌<◌, min, max}
pub use mathlib.Core.Path.{◌≡◌, refl, sym, ap, ap₂, ◌∙◌, subst, subst₂, fun_ext}
pub use mathlib.Core.Logic.{◌≢◌, ◌↔◌, ◌⊎◌, inl, inr}
pub use mathlib.Core.Bool.{Bool, true, false, false≢true, not, ◌&&◌, ◌||◌}
pub use mathlib.Core.Option.{Option, none, some, some-injective}
pub use mathlib.Core.List.{List, [], ◌∷◌, ◌++◌, map, append-nil, append_assoc}
pub use native.Mathlib.Omega.{arith}

-- ===== src/Base.antt =====
-- Names that the components share: the libraries', passed on, and those of the children.
mod Tests
mod Results
mod Lists
mod Newlines
mod Texts
unfoldable pub use Tests.*
pub use Results.*
unfoldable pub use Lists.*
unfoldable pub use Texts.{
  split_on, has_prefix, is_ascii_space, has_outer_space, decimal, is_space, skip_space, strip,
  digits_value,
}
unfoldable pub use Newlines.{universal_newlines, has_char}
pub use Newlines.{universal_newlines-no_return, universal_newlines-has_char}
pub use Prim.Native.Nat.{ℕ, zero, suc, ◌+◌, ◌-◌, ◌*◌, ◌/◌, ◌%◌, ◌^◌, ◌≤◌, ◌<◌}
pub use Prim.Native.String.{String, count, ◌++◌ as ◌<>◌}
pub use mathlib.Core.Path.{◌≡◌, refl, sym, ap, ◌∙◌}
pub use mathlib.Core.Logic.{◌≢◌, ◌↔◌, ◌⊎◌, inl, inr}
pub use mathlib.Core.Bool.{Bool, true, false, not, ◌&&◌, ◌||◌}
pub use mathlib.Core.Option.{Option, none, some}
pub use mathlib.Core.List.{List, [], ◌∷◌, ◌++◌, map}
pub use native.Mathlib.Omega.{arith}

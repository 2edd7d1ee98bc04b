-- ===== src/Prelude.antt =====
-- Names that every part of the model shares: those of the libraries, passed on, and the helpers of
-- the children (Boolean tests, lists, texts, sorting).
mod Tests
mod Lists
pub mod Texts
pub mod Sorts
mod Members
pub use Tests.*
pub use Lists.*
pub use Members.*
pub use Texts.{Text, text_eq_iff, text_eq_refl, any-text_eq, codes, is_empty}
unfoldable pub use Texts.{text_eq}
pub use Prim.Native.Nat.{ℕ, zero, suc, ◌+◌, ◌-◌, ◌*◌, ◌/◌, ◌%◌, ◌^◌, ◌≤◌, ◌<◌, min, max}
pub use Prim.Native.String.{String}
pub use mathlib.Core.Path.{◌≡◌, refl, sym, ap, ap₂, subst, fun_ext, ◌∙◌}
pub use mathlib.Core.Logic.{◌≢◌, ◌↔◌, ◌⊎◌, inl, inr}
pub use mathlib.Core.Bool.{Bool, true, false, not, ◌&&◌, ◌||◌}
pub use mathlib.Core.Option.{Option, none, some}
pub use mathlib.Core.List.{List, [], ◌∷◌, ◌++◌, map, append-nil, append_assoc}
pub use native.Mathlib.Omega.{arith}

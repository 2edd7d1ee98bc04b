-- ===== src/Prelude/Texts.antt =====
-- A Python `str` is the list of its code points.
use Prim.Native.Nat.{ℕ}
use Prim.Native.Char.{code}
use Prim.Native.String.{String}
use mathlib.Core.Path.{◌≡◌, refl}
use mathlib.Core.Bool.{Bool, true, false, ◌&&◌}
use mathlib.Core.Logic.{inl, inr}
use mathlib.Core.List.{List, [], ◌∷◌}
use native.Mathlib.Omega.{arith}
use number_masking_service.Prelude.Tests.{◌==◌, Bool-cases}
use number_masking_service.Prelude.Lists.{any, In, here, there}

abbrev pub Text : Type 0
Text = List ℕ

-- `==` of two strings.
unfoldable pub text_eq : Text → Text → Bool
text_eq [] [] = true
text_eq [] (d ∷ t) = false
text_eq (c ∷ s) [] = false
text_eq (c ∷ s) (d ∷ t) = (c == d) && text_eq s t

pub text_eq_refl : (s : Text) → text_eq s s ≡ true
unfolding text_eq
text_eq_refl [] = refl
text_eq_refl (c ∷ s) = ground (arith, text_eq_refl s)

pub text_eq_iff : (s t : Text) → text_eq s t ≡ true → s ≡ t
unfolding text_eq
text_eq_iff [] [] h = refl
text_eq_iff [] (d ∷ t) h = cc
text_eq_iff (c ∷ s) [] h = cc
text_eq_iff (c ∷ s) (d ∷ t) h = ground (arith, text_eq_iff s t)

-- The code points of a literal.
abbrev pub codes : String → Text
codes String.[] = []
codes (String.◌∷◌ c s) = code c ∷ codes s

-- `not s`.
abbrev pub is_empty : Text → Bool
is_empty [] = true
is_empty (c ∷ s) = false

pub any-text_eq : (key : Text) (keys : List Text) → any keys (text_eq key) ≡ true → In key keys
any-text_eq key [] h = cc
any-text_eq key (k ∷ keys) h = elim (Bool-cases (text_eq key k)) [
  | inl same ↦ here (text_eq_iff key k same)
  | inr other ↦ there (any-text_eq key keys (ground (arith, other)))
]

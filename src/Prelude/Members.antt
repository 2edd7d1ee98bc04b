-- ===== src/Prelude/Members.antt =====
-- Membership in appended and in sorted lists.
use mathlib.Core.Path.{refl}
use mathlib.Core.Logic.{◌⊎◌, inl, inr}
use mathlib.Core.Bool.{Bool}
use mathlib.Core.List.{List, [], ◌∷◌, ◌++◌}
use number_masking_service.Prelude.Tests.{Bool-cases}
use number_masking_service.Prelude.Lists.{In, here, there}
use number_masking_service.Prelude.Sorts.{insert, sort}

module _ {ℓ} {A : Type ℓ} where
  pub In-append : (xs ys : List A) (x : A) → In x (xs ++ ys) → In x xs ⊎ In x ys
  In-append [] ys x m = inr m
  In-append (y ∷ xs) ys x (here e) = inl (here e)
  In-append (y ∷ xs) ys x (there m) = elim (In-append xs ys x m) [
    | inl l ↦ inl (there l)
    | inr r ↦ inr r
  ]

  pub In-append_left : (xs ys : List A) (x : A) → In x xs → In x (xs ++ ys)
  In-append_left [] ys x m = elim m [ ]
  In-append_left (y ∷ xs) ys x (here e) = here e
  In-append_left (y ∷ xs) ys x (there m) = there (In-append_left xs ys x m)

  pub In-append_right : (xs ys : List A) (x : A) → In x ys → In x (xs ++ ys)
  In-append_right [] ys x m = m
  In-append_right (y ∷ xs) ys x m = there (In-append_right xs ys x m)

  In-insert_new : (before : A → A → Bool) (x : A) (xs : List A) → In x (insert before x xs)
  unfolding insert
  In-insert_new before x [] = here refl
  In-insert_new before x (y ∷ xs) = elim (Bool-cases (before x y)) [
    | inl t ↦ rw t (here refl)
    | inr f ↦ rw f (there (In-insert_new before x xs))
  ]

  In-insert : (before : A → A → Bool) (a x : A) (xs : List A) → In x xs → In x (insert before a xs)
  unfolding insert
  In-insert before a x [] m = elim m [ ]
  In-insert before a x (y ∷ xs) (here e) = elim (Bool-cases (before a y)) [
    | inl t ↦ rw t (there (here e))
    | inr f ↦ rw f (here e)
  ]
  In-insert before a x (y ∷ xs) (there m) = elim (Bool-cases (before a y)) [
    | inl t ↦ rw t (there (there m))
    | inr f ↦ rw f (there (In-insert before a x xs m))
  ]

  pub In-sort : (before : A → A → Bool) (x : A) (xs : List A) → In x xs → In x (sort before xs)
  unfolding sort
  In-sort before x [] m = m
  In-sort before x (y ∷ xs) (here e) = rw e (In-insert_new before y (sort before xs))
  In-sort before x (y ∷ xs) (there m) =
      In-insert before y x (sort before xs) (In-sort before x xs m)

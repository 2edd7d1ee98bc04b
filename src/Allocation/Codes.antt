-- ===== src/Allocation/Codes.antt =====
-- app/services/allocation.py: `_fresh_code`.
use number_masking_service.Prelude.{
  ℕ, zero, suc, ◌+◌, ◌≡◌, ◌∙◌, ap, Option, none, some, List, false, Text, Bool-cases, inl, inr,
}
use number_masking_service.Errors.{ok, ok-injective, >>=-eq-ok}
use number_masking_service.Crypto.{Primitives, generate_ext_code}
use number_masking_service.Allocation.{mem, fresh_code}

no_pin : {t : Text} → ◌≡◌ {A = Option Text} none (some t) → ⊥
no_pin e = cc

module _ (c : Primitives) (used : List Text) (width : ℕ) where
  -- A PIN that `_fresh_code` returns is none of the PINs in use.
  pub fresh_code-unused :
      (attempts draw : ℕ) (code : Text) (draw' : ℕ)
      → fresh_code c used width attempts draw ≡ ok (some code, draw')
      → mem code used ≡ false
  unfolding fresh_code
  fresh_code-unused zero draw code draw' e = absurd (cc)
  fresh_code-unused (suc k) draw code draw' e =
      let (g, _, e₁) = >>=-eq-ok (generate_ext_code c draw width) _ e in
      elim (Bool-cases (mem g used)) [
        | inl t ↦ fresh_code-unused k (draw + 1) code draw' (rw t at e₁)
        | inr f ↦
            let e₂ : ok (some g, draw + 1) ≡ ok (some code, draw') = rw f at e₁ in
            let same : g ≡ code = cc e₂ in rw (← same) f
      ]

  -- A PIN that `_fresh_code` returns was drawn.
  pub fresh_code-drawn :
      (attempts draw : ℕ) (code : Text) (got : Option Text × ℕ)
      → fresh_code c used width attempts draw ≡ ok got
      → got.0 ≡ some code
      → (d : ℕ) × (generate_ext_code c d width ≡ ok code)
  unfolding fresh_code
  fresh_code-drawn zero draw code got e k =
      let none_left = ok-injective e in
      absurd (no_pin (ap (λ (p : Option Text × ℕ). p.0) none_left ∙ k))
  fresh_code-drawn (suc k) draw code got e h =
      let (g, drawn, e₁) = >>=-eq-ok (generate_ext_code c draw width) _ e in
      elim (Bool-cases (mem g used)) [
        | inl t ↦ fresh_code-drawn k (draw + 1) code got (rw t at e₁) h
        | inr f ↦
            let e₂ : ok (some g, draw + 1) ≡ ok got = rw f at e₁ in
            let same : g ≡ code = cc (ok-injective e₂, h) in (draw, rw (← same) drawn)
      ]

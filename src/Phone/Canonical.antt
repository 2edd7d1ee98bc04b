-- ===== src/Phone/Canonical.antt =====
-- app/core/phone.py: a number in E.164 form is its own normal form.
use number_masking_service.Prelude.{
  ℕ, zero, suc, ◌-◌, ◌≡◌, ◌≤◌, refl, none, [], ◌∷◌, arith, true, false, Text, List, All, length,
  All-mono, filter_every,
}
use mathlib.Core.List.{reverse, reverse_aux, reverse-reverse}
use number_masking_service.Errors.{ok}
use number_masking_service.Unicode.{Unicode}
use number_masking_service.Phone.{
  plus, strip, strip_left, digits_of, starts_with, tail_matches, e164_matches, check_e164,
  normalize_e164,
}
use number_masking_service.Phone.Normal.{Decimals, IsE164}

-- No decimal is white space.
abbrev pub Apart : Unicode → Type 0
Apart u = (c : ℕ) → u.is_decimal c ≡ true → u.is_space c ≡ false

All-reverse_aux {ℓ κ} :
    {A : Type ℓ} (P : A → Type κ) (xs ys : List A) → All P xs → All P ys → All P (reverse_aux xs ys)
All-reverse_aux P [] ys h k = k
All-reverse_aux P (x ∷ xs) ys h k = All-reverse_aux P xs (x ∷ ys) h.1 (h.0, k)

module _ (u : Unicode) where
  strip_left-id : (t : Text) → All (λ c. u.is_space c ≡ false) t → strip_left u t ≡ t
  unfolding strip_left
  strip_left-id [] h = refl
  strip_left-id (c ∷ t) h = rw h.0

  pub strip-id : (t : Text) → All (λ c. u.is_space c ≡ false) t → strip u t ≡ t
  unfolding strip
  strip-id t h =
      let back : All (λ c. u.is_space c ≡ false) (reverse t) = All-reverse_aux _ t [] h tt in
      rw (strip_left-id t h, strip_left-id (reverse t) back) (reverse-reverse t)

  tail_matches-all :
      (lo hi : ℕ) (t : Text)
      → Decimals u t
      → lo ≤ length t
      → length t ≤ hi
      → tail_matches u lo hi t ≡ true
  unfolding tail_matches
  tail_matches-all lo hi [] d h k = ground arith
  tail_matches-all lo zero (c ∷ t) d h k = absurd (omega arith)
  tail_matches-all lo (suc hi) (c ∷ t) d h k =
      ground (arith, d.0, tail_matches-all (lo - 1) hi t d.1)

  low_digit : (c : ℕ) → 49 ≤ c → c ≤ 57 → u.is_decimal c ≡ true
  low_digit c h k = ground (arith, u.decimal_ascii c)

  plus-not-decimal : u.is_decimal plus ≡ false
  plus-not-decimal = ground (arith, u.decimal_ascii 43)

  plus-not-space : u.is_space plus ≡ false
  plus-not-space = ground (arith, u.space_ascii 43)

  -- A number in E.164 form is returned as it is.
  pub normalize_e164-canonical : (t : Text) → Apart u → IsE164 u t → normalize_e164 u none t ≡ ok t
  unfolding normalize_e164 digits_of starts_with check_e164 e164_matches
  normalize_e164-canonical t apart number =
      let digits = number.lead ∷ number.rest in
      let numeric : Decimals u digits =
        (low_digit number.lead number.lead_low number.lead_high, number.numeric) in
      let tight : All (λ c. u.is_space c ≡ false) (plus ∷ digits) =
        (plus-not-space, All-mono _ _ digits apart numeric) in
      let kept : digits_of u (plus ∷ digits) ≡ digits =
        rw plus-not-decimal (filter_every (λ c. u.is_decimal c) digits numeric) in
      let matched : e164_matches u (plus ∷ digits) ≡ true =
        ground (arith, tail_matches-all 6 14 number.rest numeric.1) in
      rw (number.shape, strip-id (plus ∷ digits) tight, kept, matched)

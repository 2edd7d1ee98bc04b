-- ===== src/Phone/Normal.antt =====
-- app/core/phone.py: what `normalize_e164` returns.
use number_masking_service.Prelude.{
  ℕ, zero, suc, ◌-◌, ◌≡◌, ◌≤◌, refl, subst, none, [], ◌∷◌, arith, true, false, Text, All,
  All-append, All-drop, All-filter, Bool-cases, inl, inr, length, codes, if_induction, ◌&&◌, ◌==◌,
  is_empty, drop, if◌then◌else◌,
}
use number_masking_service.Errors.{ok}
use number_masking_service.Unicode.{Unicode}
use number_masking_service.Phone.{
  plus, strip, digits_of, starts_with, international, default_prefix, tail_matches, e164_matches,
  check_e164, normalize_e164,
}

abbrev pub Decimals : Unicode → Text → Type 0
Decimals u t = All (λ c. u.is_decimal c ≡ true) t

-- A plus, a digit from 1 to 9, and six to fourteen decimals.
pub record IsE164 (u : Unicode) (t : Text) : Type 0 where
  pub lead : ℕ
  pub rest : Text
  pub shape : t ≡ plus ∷ lead ∷ rest
  pub lead_low : 49 ≤ lead
  pub lead_high : lead ≤ 57
  pub least : 6 ≤ length rest
  pub most : length rest ≤ 14
  pub numeric : Decimals u rest

module _ (u : Unicode) where
  not_feed : (c : ℕ) → u.is_decimal c ≡ true → (c == 10) ≡ false
  not_feed c h = ground (arith, u.decimal_ascii c)

  tail_matches-length :
      (lo hi : ℕ) (t : Text)
      → Decimals u t
      → tail_matches u lo hi t ≡ true
      → (lo ≤ length t) × (length t ≤ hi)
  unfolding tail_matches
  tail_matches-length lo zero [] h m = ground arith
  tail_matches-length lo (suc hi) [] h m = ground arith
  tail_matches-length lo zero (c ∷ t) h m = ground (arith, not_feed c h.0)
  tail_matches-length lo (suc hi) (c ∷ t) h m =
      ground (arith, not_feed c h.0, tail_matches-length (lo - 1) hi t h.1)

  matched-IsE164 :
      (t : Text) → Decimals u t → e164_matches u (plus ∷ t) ≡ true → IsE164 u (plus ∷ t)
  unfolding e164_matches
  matched-IsE164 [] h m = absurd (cc m)
  matched-IsE164 (d ∷ t) h m =
      let (least, most) = tail_matches-length 6 14 t h.1 (ground arith) in
      record {
        lead = d;
        rest = t;
        shape = refl;
        lead_low = ground arith;
        lead_high = ground arith;
        least = least;
        most = most;
        numeric = h.1;
      }

  seven : Decimals u (codes "7")
  seven = (ground (arith, u.decimal_ascii 55), tt)

  international-Decimals : (t : Text) → Decimals u t → Decimals u (international none t)
  unfolding international default_prefix
  international-Decimals t h =
      if_induction (Decimals u) (starts_with t (codes "8") && length t == 11)
        (λ e. All-append _ (codes "7") (drop 1 t) seven (All-drop _ 1 t h))
        (λ e.
          if_induction (Decimals u) (starts_with t (codes "00")) (λ k. All-drop _ 2 t h) (λ k. h))

  check_e164-IsE164 :
      (t out : Text) → Decimals u t → check_e164 u (plus ∷ t) ≡ ok out → IsE164 u out
  unfolding check_e164
  check_e164-IsE164 t out h e = elim (Bool-cases (e164_matches u (plus ∷ t))) [
    | inl m ↦
        let same : plus ∷ t ≡ out = cc (rw (m, check_e164) at e) in
        subst (IsE164 u) same (matched-IsE164 t h m)
    | inr f ↦ absurd (cc (rw (f, check_e164) at e))
  ]

  -- A number that `normalize_e164` returns, with the default prefix, is a plus, a digit from 1 to 9,
  -- and six to fourteen decimals, with nothing behind them.
  pub normalize_e164-IsE164 :
      (value out : Text) → normalize_e164 u none value ≡ ok out → IsE164 u out
  unfolding normalize_e164 digits_of
  normalize_e164-IsE164 value out e =
      let raw = strip u value in
      let digits = digits_of u raw in
      let numeric : Decimals u digits = All-filter (λ c. u.is_decimal c) raw in
      elim (Bool-cases (is_empty raw)) [
        | inl t ↦ absurd (cc (rw (t, normalize_e164) at e))
        | inr f ↦ elim (Bool-cases (is_empty digits)) [
          | inl t ↦ absurd (cc (rw (f, t, normalize_e164) at e))
          | inr g ↦
              check_e164-IsE164
                (if starts_with raw (codes "+") then digits else international none digits) out
                (if_induction (Decimals u) (starts_with raw (codes "+")) (λ k. numeric)
                  (λ k. international-Decimals digits numeric))
                (rw (f, g, normalize_e164) at e)
        ]
      ]

-- ===== src/Phone/Runs.antt =====
-- app/core/phone.py: runs of decimals in a text, what `mask_e164` leaves of them, and which of them
-- the pattern of `scrub_text` takes.
use number_masking_service.Prelude.{
  ℕ, zero, suc, ◌+◌, ◌-◌, ◌≡◌, ◌≤◌, max, ◌++◌, [], ◌∷◌, arith, Text, codes, leb, length, take, ◌==◌,
  append_assoc, length-take-le, is_empty, length-drop, refl, ==→eq, ◌&&◌, Bool, ◌⊎◌, if◌then◌else◌,
  true, false, inl, inr,
}
use number_masking_service.Unicode.{Unicode}
use number_masking_service.Phone.{plus, run, loose_match, last, mask_e164}

-- What a choice as in `loose_match` chose.
either :
    (sign : Bool) (m n : ℕ)
    → (((if sign && leb 7 m then suc m else if leb 7 n then n else 0) ≡ 0) × (n ≤ 6))
      ⊎ (((if sign && leb 7 m then suc m else if leb 7 n then n else 0) ≡ suc m)
          × (7 ≤ m)
          × (sign ≡ true))
      ⊎ (((if sign && leb 7 m then suc m else if leb 7 n then n else 0) ≡ n) × (7 ≤ n))
either sign m n = ground arith

module _ (u : Unicode) where
  -- How many decimals the text begins with.
  abbrev pub lead : Text → ℕ
  lead [] = 0
  lead (c ∷ t) = let more = lead t in if u.is_decimal c then suc more else 0

  -- The most decimals in a row that stand in the text.
  abbrev pub longest : Text → ℕ
  longest [] = 0
  longest (c ∷ t) = max (lead (c ∷ t)) (longest t)

  pub run-lead : (limit : ℕ) (t : Text) → (run u limit t ≤ lead t) × (run u limit t ≤ limit)
  unfolding run
  run-lead zero t = omega arith
  run-lead (suc limit) [] = omega arith
  run-lead (suc limit) (c ∷ t) = ground (arith, run-lead limit t)

  -- Below the limit, it is the whole run.
  pub run-eq-lead : (limit : ℕ) (t : Text) → lead t ≤ limit → run u limit t ≡ lead t
  unfolding run
  run-eq-lead zero t h = omega arith
  run-eq-lead (suc limit) [] h = omega arith
  run-eq-lead (suc limit) (c ∷ t) h = ground (arith, run-eq-lead limit t)

  pub run_short : (limit : ℕ) (t : Text) → suc (run u limit t) ≤ limit → run u limit t ≡ lead t
  unfolding run
  run_short zero t h = absurd (omega arith)
  run_short (suc limit) [] h = omega arith
  run_short (suc limit) (c ∷ t) h = ground (arith, run_short limit t)

  pub lead-le-longest : (t : Text) → lead t ≤ longest t
  lead-le-longest [] = omega arith
  lead-le-longest (c ∷ t) = ground arith

  pub lead-append : (s t : Text) → lead (s ++ t) ≤ length s + lead t
  lead-append [] t = omega arith
  lead-append (c ∷ s) t = ground (arith, lead-append s t)

  pub longest-append : (s t : Text) → longest (s ++ t) ≤ max (length s + lead t) (longest t)
  longest-append [] t = ground arith
  longest-append (c ∷ s) t = ground (arith, lead-append (c ∷ s) t, longest-append s t)

  pub star : u.is_decimal 42 ≡ false
  star = ground (arith, u.decimal_ascii 42)

  pub plus_sign : u.is_decimal plus ≡ false
  plus_sign = ground (arith, u.decimal_ascii 43)

  -- What follows a star starts a new run.
  pub stars-longest : (t : Text) → longest (codes "***" ++ t) ≡ longest t
  stars-longest t = ground (arith, star)

  pub stars-lead : (t : Text) → lead (codes "***" ++ t) ≡ 0
  stars-lead t = rw star

  pub masked_long : (v : Text) → 7 ≤ length v → mask_e164 v ≡ take 5 v ++ (codes "***" ++ last 4 v)
  unfolding mask_e164
  masked_long v h =
      let some_text : is_empty v ≡ false = ground arith in
      let long : leb (length v) 6 ≡ false = ground arith in
      rw (some_text, long) (append_assoc (take 5 v) (codes "***") (last 4 v))

  pub masked :
      (v t : Text) → 7 ≤ length v → mask_e164 v ++ t ≡ take 5 v ++ (codes "***" ++ (last 4 v ++ t))
  unfolding mask_e164
  masked v t h = rw (masked_long v h, append_assoc (take 5 v) (codes "***" ++ last 4 v) t) refl

  pub lead-take : (n : ℕ) (t : Text) → lead (take n t) ≤ lead t
  lead-take zero t = omega arith
  lead-take (suc n) [] = omega arith
  lead-take (suc n) (c ∷ t) = ground (arith, lead-take n t)

  pub lead-cut : (n : ℕ) (v t : Text) → lead (take n v ++ (codes "***" ++ t)) ≤ lead v
  lead-cut zero v t = omega (arith, stars-lead t)
  lead-cut (suc n) [] t = omega (arith, stars-lead t)
  lead-cut (suc n) (c ∷ v) t = ground (arith, lead-cut n v t)

  pub masked-lead :
      (v t : Text)
      → 7 ≤ length v
      → (lead (mask_e164 v ++ t) ≤ 5) × (lead (mask_e164 v ++ t) ≤ lead v)
  masked-lead v t h = rw (masked v t h) (
      omega (
        arith,
        lead-cut 5 v (last 4 v ++ t),
        length-take-le 5 v,
        lead-append (take 5 v) (codes "***" ++ (last 4 v ++ t)),
        stars-lead (last 4 v ++ t),
      ))

  pub masked-longest :
      (v t : Text)
      → 7 ≤ length v
      → longest (mask_e164 v ++ t) ≤ max 5 (max (4 + lead t) (longest t))
  unfolding last
  masked-longest v t h = rw (masked v t h) (
      ground (
        arith,
        length-take-le 5 v,
        length-drop (length v - 4) v,
        longest-append (take 5 v) (codes "***" ++ (last 4 v ++ t)),
        stars-lead (last 4 v ++ t),
        stars-longest (last 4 v ++ t),
        longest-append (last 4 v) t,
      ))

  pub lead-le-length : (t : Text) → lead t ≤ length t
  lead-le-length [] = omega arith
  lead-le-length (c ∷ t) = ground (arith, lead-le-length t)

  -- The match, or that there is none.
  pub loose_match-cases :
      (c : ℕ) (t : Text)
      → ((loose_match u (c ∷ t) ≡ 0) × (lead (c ∷ t) ≤ 6))
        ⊎ ((loose_match u (c ∷ t) ≡ suc (run u 15 t)) × (7 ≤ run u 15 t) × (lead (c ∷ t) ≡ 0))
        ⊎ ((loose_match u (c ∷ t) ≡ run u 15 (c ∷ t)) × (7 ≤ run u 15 (c ∷ t)))
  unfolding loose_match
  loose_match-cases c t = elim (either (c == plus) (run u 15 t) (run u 15 (c ∷ t))) [
    | inl (e, short) ↦ inl (e, omega (arith, run_short 15 (c ∷ t)))
    | inr (inl (e, enough, sign)) ↦ inr (inl (e, enough, rw (==→eq c plus sign, plus_sign)))
    | inr (inr (e, enough)) ↦ inr (inr (e, enough))
  ]

-- ===== src/Phone/Scrub.antt =====
-- app/core/phone.py: how many decimals in a row `scrub_text` leaves.
use number_masking_service.Prelude.{
  ℕ, zero, suc, ◌-◌, ◌≡◌, ◌≤◌, ◌++◌, [], ◌∷◌, arith, Text, length, take, ◌==◌, length-take, refl,
  ◌⊎◌, ap, sym, ◌∙◌, if◌then◌else◌, inl, inr,
}
use number_masking_service.Unicode.{Unicode}
use number_masking_service.Phone.{run, loose_match, mask_e164, scrub_from, scrub_text}
use number_masking_service.Phone.Runs.{
  lead, longest, run-lead, run-eq-lead, lead-le-longest, lead-take, masked-lead, masked-longest,
  lead-le-length, loose_match-cases,
}

module _ (u : Unicode) where
  -- What `scrub_from` does at a character that no match has taken.
  data IsScrubbed (c : ℕ) (t out : Text) : Type 0 where
    kept : lead u (c ∷ t) ≤ 6 → out ≡ c ∷ scrub_from u 0 t → IsScrubbed c t out
    hidden :
        (v : Text) (k : ℕ)
        → 7 ≤ length v
        → lead u v ≤ lead u (c ∷ t)
        → ((k ≡ run u 15 t) × (lead u (c ∷ t) ≡ 0)) ⊎ (suc k ≡ run u 15 (c ∷ t))
        → out ≡ mask_e164 v ++ scrub_from u k t
        → IsScrubbed c t out

  scrub_at : ℕ → ℕ → Text → Text
  scrub_at n c t =
      if n == 0
      then c ∷ scrub_from u (n - 1) t
      else mask_e164 (take n (c ∷ t)) ++ scrub_from u (n - 1) t

  scrub_from-at : (c : ℕ) (t : Text) → scrub_from u 0 (c ∷ t) ≡ scrub_at (loose_match u (c ∷ t)) c t
  unfolding scrub_from scrub_at
  scrub_from-at c t = refl

  scrub_at-kept : (c : ℕ) (t : Text) → scrub_at 0 c t ≡ c ∷ scrub_from u 0 t
  unfolding scrub_at
  scrub_at-kept c t = refl

  scrub_at-hidden :
      (n : ℕ) (c : ℕ) (t : Text)
      → scrub_at (suc n) c t ≡ mask_e164 (take (suc n) (c ∷ t)) ++ scrub_from u n t
  unfolding scrub_at
  scrub_at-hidden n c t = ground arith

  scrub_from-IsScrubbed : (c : ℕ) (t : Text) → IsScrubbed c t (scrub_from u 0 (c ∷ t))
  scrub_from-IsScrubbed c t = elim (loose_match-cases u c t) [
    | inl (e, short) ↦
        kept short (scrub_from-at c t ∙ ap (λ n. scrub_at n c t) e ∙ scrub_at-kept c t)
    | inr (inl (e, enough, sign)) ↦
        hidden (take (suc (run u 15 t)) (c ∷ t)) (run u 15 t)
          (omega
            (arith, length-take (suc (run u 15 t)) (c ∷ t), run-lead u 15 t, lead-le-length u t))
          (lead-take u (suc (run u 15 t)) (c ∷ t)) (inl (refl, sign))
          (scrub_from-at c t ∙ ap (λ n. scrub_at n c t) e ∙ scrub_at-hidden (run u 15 t) c t)
    | inr (inr (e, enough)) ↦
        let k = run u 15 (c ∷ t) - 1 in
        let more : run u 15 (c ∷ t) ≡ suc k = omega arith in
        hidden (take (suc k) (c ∷ t)) k
          (omega
            (arith, length-take (suc k) (c ∷ t), run-lead u 15 (c ∷ t), lead-le-length u (c ∷ t)))
          (lead-take u (suc k) (c ∷ t)) (inr (sym more))
          (scrub_from-at c t ∙ ap (λ n. scrub_at n c t) (e ∙ more) ∙ scrub_at-hidden k c t)
  ]

  scrub_from-skip : (k c : ℕ) (t : Text) → scrub_from u (suc k) (c ∷ t) ≡ scrub_from u k t
  unfolding scrub_from
  scrub_from-skip k c t = refl

  scrub_from-end : (k : ℕ) → scrub_from u k [] ≡ []
  unfolding scrub_from
  scrub_from-end k = refl

  scrubbed-lead :
      (c : ℕ) (t out : Text)
      → IsScrubbed c t out
      → lead u (scrub_from u 0 t) ≤ lead u t
      → (lead u out ≤ 6) × (lead u out ≤ lead u (c ∷ t))
  scrubbed-lead c t out (kept short e) h = rw e (ground arith)
  scrubbed-lead c t out (hidden v k long less where_to e) h =
      rw e (omega (arith, masked-lead u v (scrub_from u k t) long))

  -- Behind a match and elsewhere, what is left begins with six decimals at most.
  scrub_from-lead :
      (skip : ℕ) (t : Text)
      → (lead u (scrub_from u skip t) ≤ 6) × (skip ≡ 0 → lead u (scrub_from u skip t) ≤ lead u t)
  scrub_from-lead skip [] = rw (scrub_from-end skip) (omega arith, λ z. omega arith)
  scrub_from-lead (suc skip) (c ∷ t) =
      rw (scrub_from-skip skip c t) ((scrub_from-lead skip t).0, λ z. absurd (omega arith))
  scrub_from-lead zero (c ∷ t) =
      let (six, least) =
        scrubbed-lead c t (scrub_from u 0 (c ∷ t)) (scrub_from-IsScrubbed c t)
          ((scrub_from-lead 0 t).1 refl) in
      (six, λ z. least)

  scrubbed-longest :
      (c : ℕ) (t out : Text)
      → IsScrubbed c t out
      → ((k : ℕ) → longest u (scrub_from u k t) ≤ 10)
      → longest u out ≤ 10
  scrubbed-longest c t out (kept short e) h =
      rw e (ground (arith, h 0, (scrub_from-lead 0 t).1 refl))
  scrubbed-longest c t out (hidden v k long less where_to e) h =
      rw e (ground (arith, masked-longest u v (scrub_from u k t) long, h k, scrub_from-lead k t))

  scrub_from-longest : (skip : ℕ) (t : Text) → longest u (scrub_from u skip t) ≤ 10
  scrub_from-longest skip [] = rw (scrub_from-end skip) (omega arith)
  scrub_from-longest (suc skip) (c ∷ t) = rw (scrub_from-skip skip c t) (scrub_from-longest skip t)
  scrub_from-longest zero (c ∷ t) =
      scrubbed-longest c t (scrub_from u 0 (c ∷ t)) (scrub_from-IsScrubbed c t)
        (λ k. scrub_from-longest k t)

  -- No text keeps more than ten decimals in a row: a number of eleven digits cannot show.
  pub scrub_text-longest : (t : Text) → longest u (scrub_text u t) ≤ 10
  unfolding scrub_text
  scrub_text-longest t = scrub_from-longest 0 t

  -- A match takes the whole run.
  whole_run :
      (k c : ℕ) (t : Text)
      → longest u (c ∷ t) ≤ 15
      → ((k ≡ run u 15 t) × (lead u (c ∷ t) ≡ 0)) ⊎ (suc k ≡ run u 15 (c ∷ t))
      → k ≡ lead u t
  whole_run k c t b (inl (e, z)) = e ∙ run-eq-lead u 15 t (ground (arith, lead-le-longest u t))
  whole_run k c t b (inr e) = ground (arith, run-eq-lead u 15 (c ∷ t))

  scrubbed-tight :
      (c : ℕ) (t out : Text)
      → longest u (c ∷ t) ≤ 15
      → IsScrubbed c t out
      → ((k : ℕ)
          → (k ≡ 0) ⊎ (k ≡ lead u t)
          → (longest u (scrub_from u k t) ≤ 6) × (k ≡ lead u t → lead u (scrub_from u k t) ≡ 0))
      → longest u out ≤ 6
  scrubbed-tight c t out b (kept short e) h =
      let (six, z) = h 0 (inl refl) in rw e (ground (arith, (scrub_from-lead 0 t).1 refl))
  scrubbed-tight c t out b (hidden v k long less where_to e) h =
      let whole : k ≡ lead u t = whole_run k c t b where_to in
      let (six, z) = h k (inr whole) in
      rw e (ground (arith, masked-longest u v (scrub_from u k t) long, z whole))

  scrub_from-tight :
      (skip : ℕ) (t : Text)
      → longest u t ≤ 15
      → (skip ≡ 0) ⊎ (skip ≡ lead u t)
      → (longest u (scrub_from u skip t) ≤ 6) × (skip ≡ lead u t → lead u (scrub_from u skip t) ≡ 0)
  scrub_from-tight skip [] b at_start = rw (scrub_from-end skip) (omega arith, λ z. refl)
  scrub_from-tight (suc skip) (c ∷ t) b at_start =
      let rest : skip ≡ lead u t = ground arith in
      let (six, z) = scrub_from-tight skip t (ground arith) (inr rest) in
      rw (scrub_from-skip skip c t) (six, λ e. z rest)
  scrub_from-tight zero (c ∷ t) b at_start =
      let step = scrub_from-IsScrubbed c t in
      (
        scrubbed-tight c t (scrub_from u 0 (c ∷ t)) b step
            (λ k at. scrub_from-tight k t (ground arith) at),
        λ e. omega (
          arith,
          (scrubbed-lead c t (scrub_from u 0 (c ∷ t)) step ((scrub_from-lead 0 t).1 refl)).1,
        ),
      )

  -- Where no run of decimals is longer than a phone number's fifteen, none of more than six is left.
  pub scrub_text-hides : (t : Text) → longest u t ≤ 15 → longest u (scrub_text u t) ≤ 6
  unfolding scrub_text
  scrub_text-hides t b = (scrub_from-tight 0 t b (inl refl)).0

-- ===== src/Lookup/Codes.antt =====
-- app/services/routing.py: the session that a PIN selects.
use number_masking_service.Prelude.{
  ◌≡◌, none, some, List, arith, true, false, Text, text_eq_iff, text_eq_refl, find-In, find-none,
  find-eq-some, In, All, All-mono, is_empty, ◌≢◌, Option-cases, inl, inr, ◌∙◌, ap, ◌⊎◌, find,
}
use number_masking_service.Lookup.{Candidate, code_matches, select_by_code}

carried : (code : Text) (x : Candidate) → code_matches code x ≡ true → x.ext_code ≡ some code
unfolding code_matches
carried code x m = elim (Option-cases x.ext_code) [
  | inl n ↦ absurd (ground arith)
  | inr (t, e) ↦ e ∙ ap some (text_eq_iff t code (ground arith))
]

other :
    (code : Text) (x : Candidate)
    → is_empty code ≡ false
    → code_matches code x ≡ false
    → x.ext_code ≢ some code
unfolding code_matches
other code x h m e = ground (arith, text_eq_refl code)

-- A PIN that is not empty either selects a candidate, which is one of those offered and carries that
-- PIN, or selects none, and then no candidate carries it.
pub select_by_code_lem :
    (cs : List Candidate) (code : Text)
    → is_empty code ≡ false
    → ((x : Candidate) × (select_by_code cs code ≡ some x) × In x cs × (x.ext_code ≡ some code))
      ⊎ ((select_by_code cs code ≡ none) × All (λ x. x.ext_code ≢ some code) cs)
unfolding select_by_code
select_by_code_lem cs code h = elim (Option-cases (find (code_matches code) cs)) [
  | inl n ↦ inr (n, All-mono _ _ cs (λ x. other code x h) (find-none (code_matches code) cs n))
  | inr (x, e) ↦ inl (
    x,
    e,
    find-In (code_matches code) cs x e,
    carried code x (find-eq-some (code_matches code) cs e),
  )
]

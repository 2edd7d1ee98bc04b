-- ===== src/Stasis/Outcome.antt =====
-- app/ari/stasis.py: the status that a call ends with.
use number_masking_service.Prelude.{
  ℕ, ◌≡◌, ◌≢◌, ◌↔◌, refl, Option, true, Bool-cases, inl, inr, or_else,
}
use number_masking_service.Journal.{CallStatus, answered, failed}
use number_masking_service.Stasis.{CallState}
use number_masking_service.Stasis.Teardown.{infer_status, unanswered, cause_to_status}
use number_masking_service.Stasis.Handlers.{unreached}

unanswered_lem : (s : CallStatus) → unanswered s ≢ answered
unfolding unanswered
unanswered_lem answered h = cc
unanswered_lem _ h = cc

-- A call that says nothing else about its end counts as answered exactly if the callee picked up,
-- whatever cause Asterisk reports, and a call whose callee was not reached never does.
pub infer_status-answered :
    (s : CallState) (cause : Option ℕ)
    → ((infer_status s cause ≡ answered) ↔ (s.answered ≡ true)) × (unreached cause ≢ answered)
unfolding infer_status unreached
infer_status-answered s cause = elim (Bool-cases s.answered) [
  | inl yes_it_is ↦ ((λ h. yes_it_is, λ h. rw yes_it_is refl), unanswered_lem _)
  | inr never ↦ (
    (
      λ h.
          elim (unanswered_lem (or_else (cause_to_status (or_else cause 0)) failed)
            (rw never at h)) [ ],
      λ h. cc,
    ),
    unanswered_lem _,
  )
]

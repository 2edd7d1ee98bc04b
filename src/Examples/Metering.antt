-- ===== src/Examples/Metering.antt =====
-- A trial of the figures of `metrics`.
use number_masking_service.Prelude.{◌≡◌, refl, none, some, List, [], ◌∷◌, false}
use number_masking_service.Journal.{Call, CallStatus}
use number_masking_service.Db.{Db}
use number_masking_service.Api.Metrics.{same_status, figures}
use number_masking_service.Api.Metrics.Agreement.{Complete, IsAgreed, figures-IsAgreed}
use number_masking_service.Examples.{plain_settings, empty_db}

abbrev order : List CallStatus
order =
    CallStatus.answered ∷ CallStatus.busy ∷ CallStatus.in_progress ∷ CallStatus.no_answer
    ∷ CallStatus.rejected ∷ CallStatus.expired ∷ CallStatus.unknown_caller ∷ CallStatus.failed ∷ []

order-Complete : Complete order
unfolding same_status
order-Complete CallStatus.in_progress = refl
order-Complete CallStatus.answered = refl
order-Complete CallStatus.no_answer = refl
order-Complete CallStatus.busy = refl
order-Complete CallStatus.rejected = refl
order-Complete CallStatus.expired = refl
order-Complete CallStatus.unknown_caller = refl
order-Complete CallStatus.failed = refl

-- A call that was answered after three seconds.
abbrev talk : Call
talk = record {
  id = 1;
  session_id = none;
  direction = none;
  caller_hash = [];
  proxy_e164 = [];
  started_at = 1_000_000;
  answered_at = some 4_000_000;
  ended_at = none;
  duration_sec = none;
  status = CallStatus.answered;
  hangup_cause = none;
  channel_id = none;
  bridge_id = none;
}

abbrev metered : Db
metered = record empty_db { calls = record { rows = talk ∷ []; next_id = 2 } }

set_up : (figures plain_settings 0 order 1 false metered).buckets ≡ 0 ∷ 0 ∷ 0 ∷ 1 ∷ 1 ∷ 1 ∷ []
unfolding figures
set_up = refl

figures-IsAgreed_example : IsAgreed 1 (figures plain_settings 0 order 1 false metered)
figures-IsAgreed_example = figures-IsAgreed plain_settings 0 order 1 false metered order-Complete

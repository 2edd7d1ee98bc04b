-- ===== src/Journal/Sequence.antt =====
-- app/services/calls.py: the sequence of the table moves on only where a row is inserted.
use number_masking_service.Prelude.{ℕ, ◌≡◌, Option, arith, Text}
use number_masking_service.Journal.{
  Journal, Call, CallStatus, Direction, store, update, mark_answered, finish_call, attach_session,
  set_hangup_cause,
}

pub update-next_id : (f : Call → Call) (j : Journal) (i : ℕ) → (update f j i).next_id ≡ j.next_id
unfolding update store
update-next_id f j i = ground arith

pub finish_call-next_id :
    (j : Journal) (now i : ℕ) (status : Option CallStatus) (cause : Option Text)
    (session_id : Option ℕ) (direction : Option Direction)
    → (finish_call j now i status cause session_id direction).1.next_id ≡ j.next_id
unfolding finish_call
finish_call-next_id j now i status cause session_id direction = update-next_id _ j i

pub mark_answered-next_id :
    (j : Journal) (now i : ℕ) (bridge : Option Text)
    → (mark_answered j now i bridge).next_id ≡ j.next_id
unfolding mark_answered
mark_answered-next_id j now i bridge = update-next_id _ j i

pub attach_session-next_id :
    (j : Journal) (i session : ℕ) (direction : Direction)
    → (attach_session j i session direction).next_id ≡ j.next_id
unfolding attach_session
attach_session-next_id j i session direction = update-next_id _ j i

pub set_hangup_cause-next_id :
    (j : Journal) (i : ℕ) (cause : Text) → (set_hangup_cause j i cause).next_id ≡ j.next_id
unfolding set_hangup_cause
set_hangup_cause-next_id j i cause = update-next_id _ j i

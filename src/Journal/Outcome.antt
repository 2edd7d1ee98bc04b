-- ===== src/Journal/Outcome.antt =====
-- app/services/calls.py: the outcome of a call is written once.
use number_masking_service.Prelude.{ℕ, ◌≡◌, refl, ap, fun_ext, Option, arith, Text}
use number_masking_service.Journal.{
  Call, CallStatus, Direction, Journal, update, answer_row, finish_row, attach_row, cause_row,
  finish_call,
}
use number_masking_service.Journal.Rows.{update-update, KeepsId}

module _ (now : ℕ) (status : Option CallStatus) (cause : Option Text) (session_id : Option ℕ)
    (direction : Option Direction) where
  pub finish_row-KeepsId : KeepsId (finish_row now status cause session_id direction)
  unfolding finish_row
  finish_row-KeepsId c = ground arith

  finish_row_twice :
      (later : ℕ) (status' : Option CallStatus) (cause' : Option Text) (session_id' : Option ℕ)
      (direction' : Option Direction) (c : Call)
      → finish_row later status' cause' session_id' direction'
          (finish_row now status cause session_id direction c)
        ≡ finish_row now status cause session_id direction c
  unfolding finish_row
  finish_row_twice later status' cause' session_id' direction' c = ground arith

pub answer_row-KeepsId : (now : ℕ) (b : Option Text) → KeepsId (answer_row now b)
unfolding answer_row
answer_row-KeepsId now b c = ground arith

pub cause_row-KeepsId : (cause : Text) → KeepsId (cause_row cause)
unfolding cause_row
cause_row-KeepsId cause c = ground arith

pub attach_row-KeepsId : (session : ℕ) (d : Direction) → KeepsId (attach_row session d)
unfolding attach_row
attach_row-KeepsId session d c = refl

-- Closing a call that is closed changes nothing in the journal: the first outcome wins.
pub finish_call_first_wins :
    (j : Journal) (i now later : ℕ) (status status' : Option CallStatus)
    (cause cause' : Option Text) (session_id session_id' : Option ℕ)
    (direction direction' : Option Direction)
    → (finish_call
        (finish_call j now i status cause session_id direction).1
        later
        i
        status'
        cause'
        session_id'
        direction').1
      ≡ (finish_call j now i status cause session_id direction).1
unfolding finish_call
finish_call_first_wins j i now later status status' cause cause' session_id session_id' direction
      direction' =
    rw
      (update-update (finish_row later status' cause' session_id' direction')
        (finish_row now status cause session_id direction) j i
        (finish_row-KeepsId later status' cause' session_id' direction')
        (finish_row-KeepsId now status cause session_id direction))
      (ap (λ f. update f j i)
        (fun_ext (
          finish_row_twice now status cause session_id direction later status' cause' session_id'
            direction')))

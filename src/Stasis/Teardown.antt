-- ===== src/Stasis/Teardown.antt =====
-- app/ari/stasis.py: the end of a call, and what is played to a caller.
use number_masking_service.Prelude.{
  ℕ, ◌-◌, Option, none, some, List, true, not, Text, is_empty, or_else, length, drop, ◌==◌,
  if◌then◌else◌,
}
use mathlib.Core.Option
use number_masking_service.Errors.{Result, ok}
use number_masking_service.Crypto.{decimal}
use number_masking_service.Journal.{
  Journal, Call, CallStatus, answered, busy, no_answer, rejected, failed, finish_call,
}
use number_masking_service.Stasis.{
  Env, App, CallState, cancel, Async, Await, hangup, answer, destroy_bridge, playback_finished,
  call_ended, ◌>>=◌, ◌>>◌, pure, request, try_request, ask_text, state_at, set_state, writes, when,
  for_some, emit, transact, dict_pop, dict_set,
}

abbrev pub reject_cause : ℕ
reject_cause = 21

abbrev pub temporary_failure_cause : ℕ
temporary_failure_cause = 41

abbrev pub pending_cause_limit : ℕ
pending_cause_limit = 512

-- `CAUSE_TO_STATUS.get`.
unfoldable pub cause_to_status : ℕ → Option CallStatus
cause_to_status n =
    if n == 16
    then some answered
    else if n == 17
    then some busy
    else if n == 18
    then some no_answer
    else if n == 19
    then some no_answer
    else if n == 21
    then some rejected
    else if n == 34
    then some busy
    else if n == 38
    then some failed
    else if n == 41
    then some failed
    else if n == 42
    then some failed
    else if n == 47
    then some failed
    else none

-- A callee who did not pick up did not answer, whatever the cause says.
unfoldable pub unanswered : CallStatus → CallStatus
unanswered answered = no_answer
unanswered s = s

-- `_infer_status`.
unfoldable pub infer_status : CallState → Option ℕ → CallStatus
unfolding cause_to_status unanswered
infer_status s cause =
    if s.answered then answered else unanswered (or_else (cause_to_status (or_else cause 0)) failed)

-- An identifier that is the empty text counts as missing.
unfoldable pub present : Option Text → Option Text
present none = none
present (some t) = if is_empty t then none else some t

unfoldable pub with_journal : {e : Env} → App e → Journal → App e
with_journal a j = record a { world = record a.world { db = record a.world.db { calls = j } } }

-- The oldest entries are dropped until the limit is kept.
unfoldable pub trimmed : List (Text × ℕ) → List (Text × ℕ)
trimmed entries = drop (length entries - pending_cause_limit) entries

unfoldable pub begin_finish : Option CallStatus → CallState → CallState
begin_finish status s = record s { finishing = true; final_status = status }

module _ {e : Env} where
  -- `_play`: an error of Asterisk is swallowed, and the wait for the end is bounded.
  unfoldable pub play : Text → Text → Async e (Unit {0})
  play channel media = do
    id ← ask_text (Await.play channel media)
    for_some (present id) (λ i. request (playback_finished i))

  unfoldable pub finish_transaction :
      ℕ → CallStatus → Option ℕ → CallState → App e → Result (Option Call × App e)
  unfolding with_journal
  finish_transaction i status cause s a =
      let (call, j) =
        finish_call a.world.db.calls a.clock i (some status) (Option.map decimal cause) s.session_id
          s.direction in
      ok (call, with_journal a j)

  unfoldable pub ended_webhook :
      ℕ → CallStatus → Option ℕ → Option Call → CallState → Async e (Unit {0})
  ended_webhook i status cause none s =
      emit (call_ended i s.session_id status none cause s.proxy_e164)
  ended_webhook i status cause (some call) s =
      emit (call_ended i s.session_id call.status call.duration_sec cause s.proxy_e164)

  -- The journal entry and the webhook of the end of a call.
  unfoldable pub record_end : ℕ → CallStatus → Option ℕ → ℕ → Async e (Unit {0})
  unfolding finish_transaction ended_webhook
  record_end r status cause i = do
    s ← state_at r
    call ← transact (finish_transaction i status cause s)
    t ← state_at r
    ended_webhook i status cause call t

  -- The cause of an end that had none is still to come.
  unfoldable pub expect_cause : Text → Option ℕ → Option ℕ → Async e (Unit {0})
  unfolding trimmed
  expect_cause channel (some i) none =
      writes λ a. record a { pending_cause = trimmed (dict_set channel i a.pending_cause) }
  expect_cause channel (some i) (some cause) = pure tt
  expect_cause channel none cause = pure tt

  unfoldable pub pop_outbound : Text → Async e (Unit {0})
  pop_outbound channel =
      writes λ a. record a { outbound_to_inbound = dict_pop channel a.outbound_to_inbound }

  unfoldable pub release_outbound : ℕ → Text → Async e (Unit {0})
  unfolding pop_outbound
  release_outbound r channel = do
    request (hangup channel none)
    s ← state_at r
    for_some s.outbound_channel_id pop_outbound

  unfoldable pub forget : ℕ → Text → Async e (Unit {0})
  forget r channel = do
    writes λ a. record a { calls = dict_pop channel a.calls }
    λ k. cancel r (k tt)

  -- What `_finish` does once the call is marked; `s` is the state that the guard saw.
  unfoldable pub conclude : ℕ → CallStatus → Option ℕ → CallState → Async e (Unit {0})
  unfolding present record_end expect_cause release_outbound forget
  conclude r resolved cause s = do
    for_some (present s.outbound_channel_id) (release_outbound r)
    request (hangup s.channel_id cause)
    t ← state_at r
    for_some (present t.bridge_id) (λ b. request (destroy_bridge b))
    for_some s.call_id (record_end r resolved cause)
    expect_cause s.channel_id s.call_id cause
    forget r s.channel_id

  -- `_finish`, behind its guard.
  unfoldable pub teardown : ℕ → Option CallStatus → Option ℕ → CallState → Async e (Unit {0})
  unfolding begin_finish infer_status conclude
  teardown r status cause s = do
    set_state r (begin_finish status)
    conclude r (or_else status (infer_status s cause)) cause s

  -- `_finish`.
  unfoldable pub finish : ℕ → Option CallStatus → Option ℕ → Async e (Unit {0})
  unfolding teardown
  finish r status cause = do s ← state_at r; when (not s.finishing) (teardown r status cause s)

  -- `_reject`.
  unfoldable pub reject : ℕ → Option Text → CallStatus → Async e (Unit {0})
  unfolding play present finish
  reject r prompt status = do
    s ← state_at r
    picked_up ← try_request (answer s.channel_id)
    when picked_up (for_some (present prompt) (play s.channel_id))
    finish r (some status) (some reject_cause)

  -- `_fail_channel`: an error of the answer skips the rest.
  unfoldable pub fail_channel : Text → Async e (Unit {0})
  unfolding play
  fail_channel channel = do
    picked_up ← try_request (answer channel)
    when picked_up (do
      play channel e.settings.sound_error
      request (hangup channel (some temporary_failure_cause)))

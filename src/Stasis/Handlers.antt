-- ===== src/Stasis/Handlers.antt =====
-- app/ari/stasis.py: the handlers of the events of Asterisk.
use number_masking_service.Prelude.{
  ℕ, Option, none, some, List, [], ◌∷◌, Bool, true, false, Text, text_eq, codes, or_else, is_empty,
  if◌then◌else◌, is_some,
}
use number_masking_service.Errors.{Result, ok}
use number_masking_service.Crypto.{decimal}
use number_masking_service.Journal.{CallStatus, no_answer, failed, mark_answered, set_hangup_cause}
use number_masking_service.Stasis.{
  Env, App, CallState, Async, answer, ring_stop, hangup, add_to_bridge, call_answered, pure,
  request, try_request, reads, state_at, set_state, writes, for_some, emit, transact, some_or_fail,
  nth, dict_get, dict_pop, ◌>>=◌, ◌>>◌,
}
use number_masking_service.Stasis.Teardown.{
  present, finish, cause_to_status, unanswered, with_journal, pop_outbound,
}
use number_masking_service.Stasis.Inbound.{on_inbound}

-- What the handlers read of an event. A cause is a Q.850 number.
pub data Event : Type 0 where
  stasis_start : List Text → Text → Option Text → Option Text → Event
  stasis_end : Text → Event
  channel_destroyed : Text → Option ℕ → Event
  other_event : Event

-- `args[n] if len(args) > n else ""`.
unfoldable pub first_argument : List Text → Text
first_argument (a ∷ b ∷ args) = b
first_argument _ = []

unfoldable pub second_argument : List Text → Text
second_argument (a ∷ b ∷ c ∷ args) = c
second_argument _ = []

unfoldable pub is_outbound : List Text → Bool
is_outbound [] = false
is_outbound (a ∷ args) = text_eq a (codes "outbound")

unfoldable pub with_answer : CallState → CallState
with_answer s = record s { answered = true }

-- The status of a call whose callee was never reached.
unfoldable pub unreached : Option ℕ → CallStatus
unreached cause = unanswered (or_else (cause_to_status (or_else cause 0)) no_answer)

module _ {e : Env} where
  unfoldable pub join_outbound : ℕ → Text → Bool → Async e Bool
  join_outbound r channel false = pure false
  join_outbound r channel true = do
    s ← state_at r
    bridge ← λ k. some_or_fail s.bridge_id k
    try_request (add_to_bridge bridge channel)

  unfoldable pub mark : ℕ → Option Text → App e → Result ((Unit {0}) × App e)
  unfolding with_journal
  mark i bridge a = ok (tt, with_journal a (mark_answered a.world.db.calls a.clock i bridge))

  unfoldable pub picked_up : ℕ → Bool → Async e (Unit {0})
  unfolding mark with_answer
  picked_up r false = finish r (some failed) none
  picked_up r true = do
    set_state r with_answer
    s ← state_at r
    for_some s.call_id (λ i. transact (mark i s.bridge_id))
    t ← state_at r
    emit (call_answered t.call_id t.session_id t.proxy_e164)

  unfoldable pub join_legs : ℕ → Text → CallState → Async e (Unit {0})
  unfolding join_outbound picked_up
  join_legs r channel s = do
    request (ring_stop s.channel_id)
    up ← try_request (answer s.channel_id)
    joined ← join_outbound r channel up
    picked_up r joined

  -- The call is there, with a bridge.
  unfoldable pub bridged_call : Text → App e → Option (ℕ × CallState)
  bridged_call inbound a = elim (dict_get inbound a.calls) [
    | none ↦ none
    | some r ↦ elim (nth r a.heap) [
      | none ↦ none
      | some s ↦ if is_some s.bridge_id then some (r, s) else none
    ]
  ]

  unfoldable pub second_leg : Text → Option (ℕ × CallState) → Async e (Unit {0})
  unfolding join_legs
  second_leg channel none = request (hangup channel none)
  second_leg channel (some (r, s)) = join_legs r channel s

  -- `_on_outbound_start`.
  unfoldable pub on_outbound_start : Text → List Text → Async e (Unit {0})
  unfolding first_argument bridged_call second_leg
  on_outbound_start channel args = do
    inbound ←
        reads λ a. or_else (present (dict_get channel a.outbound_to_inbound)) (first_argument args)
    found ← reads (bridged_call inbound)
    second_leg channel found

  -- `_on_stasis_start`.
  unfoldable pub on_stasis_start : List Text → Text → Option Text → Option Text → Async e (Unit {0})
  unfolding is_outbound on_inbound on_outbound_start first_argument second_argument
  on_stasis_start args channel caller exten =
      if is_empty channel
      then pure tt
      else if is_outbound args
      then on_outbound_start channel args
      else on_inbound channel (or_else (present exten) (second_argument args))
          (or_else (present caller) (first_argument args))

  -- The call of the first leg of an outbound channel.
  unfoldable pub first_leg : Text → App e → Option ℕ
  first_leg channel a = elim (dict_get channel a.outbound_to_inbound) [
    | none ↦ none
    | some inbound ↦ dict_get inbound a.calls
  ]

  unfoldable pub leg_ended : Text → Option ℕ → Async e (Unit {0})
  unfolding first_leg
  leg_ended channel (some r) = finish r none none
  leg_ended channel none = do
    held ← reads (first_leg channel)
    pop_outbound channel
    for_some held (λ r. finish r none none)

  -- `_on_stasis_end`.
  unfoldable pub on_stasis_end : Text → Async e (Unit {0})
  unfolding leg_ended
  on_stasis_end channel = do held ← reads (λ a. dict_get channel a.calls); leg_ended channel held

  unfoldable pub callee_gone : ℕ → Option ℕ → Async e (Unit {0})
  unfolding unreached
  callee_gone r cause = do
    s ← state_at r
    if s.answered then finish r none cause else finish r (some (unreached cause)) cause

  unfoldable pub outbound_destroyed : Text → Option ℕ → Option ℕ → Async e (Unit {0})
  unfolding callee_gone
  outbound_destroyed channel cause (some r) = callee_gone r cause
  outbound_destroyed channel cause none = pop_outbound channel

  unfoldable pub cause_known : Text → Option ℕ → Option ℕ → Async e (Unit {0})
  unfolding first_leg outbound_destroyed with_journal
  cause_known channel (some i) (some cause) =
      transact λ a. ok (tt, with_journal a (set_hangup_cause a.world.db.calls i (decimal cause)))
  cause_known channel pending cause = do
    held ← reads (first_leg channel)
    outbound_destroyed channel cause held

  unfoldable pub channel_gone : Text → Option ℕ → Option ℕ → Async e (Unit {0})
  unfolding cause_known
  channel_gone channel cause (some r) = finish r none cause
  channel_gone channel cause none = do
    pending ← reads (λ a. dict_get channel a.pending_cause)
    writes λ a. record a { pending_cause = dict_pop channel a.pending_cause }
    cause_known channel pending cause

  -- `_on_channel_destroyed`.
  unfoldable pub on_channel_destroyed : Text → Option ℕ → Async e (Unit {0})
  unfolding channel_gone
  on_channel_destroyed channel cause = do
    held ← reads (λ a. dict_get channel a.calls)
    channel_gone channel cause held

  -- `handle_event`. The handlers that only log are `other_event`, and so are those of digits and of ended
  -- playbacks, whose effect is the reply to what waits for them.
  unfoldable pub handle_event : Event → Async e (Unit {0})
  unfolding on_stasis_start on_stasis_end on_channel_destroyed
  handle_event (stasis_start args channel caller exten) = on_stasis_start args channel caller exten
  handle_event (stasis_end channel) = on_stasis_end channel
  handle_event (channel_destroyed channel cause) = on_channel_destroyed channel cause
  handle_event other_event = pure tt

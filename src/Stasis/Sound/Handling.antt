-- ===== src/Stasis/Sound/Handling.antt =====
-- app/ari/stasis.py: the handlers of the events are in order.
use number_masking_service.Prelude.{
  ℕ, ◌≤◌, ◌≡◌, refl, ap, Option, none, some, List, [], ◌∷◌, Bool, true, false, Text, arith, subst,
  length,
}
use number_masking_service.Errors.{Result, ok, err, ok-injective}
use number_masking_service.Crypto.{decimal}
use number_masking_service.Journal.{failed, start_call, mark_answered, set_hangup_cause}
use number_masking_service.Journal.Sequence.{mark_answered-next_id, set_hangup_cause-next_id}
use number_masking_service.Lookup.{Candidate}
use number_masking_service.Routing.{Action, Decision, reject, ask_code}
use number_masking_service.Stasis.{Env, App, CallState, Async, dict_pop}
use number_masking_service.Stasis.Handlers.{
  Event, stasis_start, stasis_end, channel_destroyed, other_event, with_answer, join_outbound, mark,
  picked_up, join_legs, second_leg, on_outbound_start, on_stasis_start, leg_ended, on_stasis_end,
  callee_gone, outbound_destroyed, cause_known, channel_gone, on_channel_destroyed, handle_event,
  is_outbound,
}
use number_masking_service.Stasis.Inbound.{
  Opened, with_collector, opened, open_call, start_task, connect_route, follow, accept, on_inbound,
  new_state,
}
use number_masking_service.Stasis.Fine.{Sound, Moves}
use number_masking_service.Stasis.Fine.Writes.{KeepsCall, Moves-aside, Moves-open}
use number_masking_service.Stasis.Sound.{
  Sound-pure, Sound-bind, Sound-request, Sound-try_request, Sound-reads, Sound-some_or_fail,
  Sound-state_at, Sound-writes, Sound-set_state, Sound-for_some, Sound-if, Sound-try_transaction,
  Sound-emit, Sound-journal,
}
use number_masking_service.Stasis.Sound.Ending.{
  pop_outbound-Sound, finish-Sound, reject-Sound, fail_channel-Sound,
}
use number_masking_service.Stasis.Sound.Calling.{connect-Sound, ask_for_code-Sound}

dict_pop-length :
    {A : Type 0} (key : Text) (d : List (Text × A)) → length (dict_pop key d) ≤ length d
dict_pop-length key [] = omega arith
dict_pop-length key ((k, x) ∷ d) = ground (arith, dict_pop-length key d)

with_collector-KeepsCall : KeepsCall with_collector
unfolding with_collector
with_collector-KeepsCall = record {
  call_id = λ s. refl;
  finishing = λ s. refl;
  channel_id = λ s. refl;
  proxy_e164 = λ s. refl;
}

with_answer-KeepsCall : KeepsCall with_answer
unfolding with_answer
with_answer-KeepsCall = record {
  call_id = λ s. refl;
  finishing = λ s. refl;
  channel_id = λ s. refl;
  proxy_e164 = λ s. refl;
}

module _ {e : Env} (i : ℕ) where
  -- The state of the new call comes with the next row of the journal.
  opened-Moves :
      (channel : Text) (a : App e) (r : Result (Decision × e.redis.Store)) (b : App e) (x : Opened)
      → opened channel a r ≡ ok (x, b)
      → Moves i a 0 b 0
  unfolding opened start_call new_state
  opened-Moves channel a (err y) b x h = cc
  opened-Moves channel a (ok (d, cache)) b x h =
      subst (λ c. Moves i a 0 c 0) (ap (λ p. p.1) (ok-injective h))
        (Moves-open i a _ 0 (new_state channel d a.world.db.calls.next_id) refl refl refl refl refl
          refl)

  -- A task has its own way, and owes nothing.
  start_task-Sound :
      (r : ℕ) (task : Async e (Unit {0})) → Sound i 0 task 0 → Sound i 0 (start_task r task) 0
  unfolding start_task
  start_task-Sound r task s = record { fine = λ k h a. (s.fine _ (λ x b. tt), h tt a) }

  connect_route-Sound :
      (r : ℕ) (candidate : Option Candidate) → Sound {e = e} i 0 (connect_route r candidate) 0
  unfolding connect_route
  connect_route-Sound r none = reject-Sound i r (some e.settings.sound_error) failed
  connect_route-Sound r (some candidate) = start_task-Sound r _ (connect-Sound i r candidate false)

  follow-Sound : (r : ℕ) (d : Decision) (action : Action) → Sound {e = e} i 0 (follow r d action) 0
  unfolding follow
  follow-Sound r d reject = start_task-Sound r _ (reject-Sound i r d.prompt _)
  follow-Sound r d ask_code =
      Sound-bind i 0 0 0 _ _ (Sound-set_state i 0 r _ with_collector-KeepsCall)
        (λ _. start_task-Sound r _ (ask_for_code-Sound i r d.candidates))
  follow-Sound r d Action.connect = connect_route-Sound r d.candidate

  accept-Sound : (channel : Text) (o : Option Opened) → Sound {e = e} i 0 (accept channel o) 0
  unfolding accept
  accept-Sound channel none = record {
    fine = λ k h a. ((fail_channel-Sound i channel).fine _ (λ x b. tt), h tt a);
  }
  accept-Sound channel (some (r, d, j)) =
      Sound-bind i 0 0 0 _ _ (Sound-emit i 0 0 _ (omega arith)) (λ _. follow-Sound r d d.action)

  on_inbound-Sound :
      (channel proxy caller : Text) → Sound {e = e} i 0 (on_inbound channel proxy caller) 0
  unfolding on_inbound open_call
  on_inbound-Sound channel proxy caller = Sound-bind i 0 0 0 _ _ (Sound-request i 0 _ refl) λ _.
      Sound-bind i 0 0 0 _ _ (Sound-request i 0 _ refl) λ _.
        Sound-bind i 0 0 0 _ _
          (Sound-try_transaction i 0 _ (λ a b x h. opened-Moves channel a _ b x h))
          (accept-Sound channel)

  join_outbound-Sound :
      (r : ℕ) (channel : Text) (up : Bool) → Sound {e = e} i 0 (join_outbound r channel up) 0
  unfolding join_outbound
  join_outbound-Sound r channel false = Sound-pure i 0 false
  join_outbound-Sound r channel true = Sound-bind i 0 0 0 _ _ (Sound-state_at i 0 r) λ s.
      Sound-bind i 0 0 0 _ _ (Sound-some_or_fail i 0 s.bridge_id)
        (λ bridge. Sound-try_request i 0 _ refl)

  picked_up-Sound : (r : ℕ) (joined : Bool) → Sound {e = e} i 0 (picked_up r joined) 0
  unfolding picked_up mark
  picked_up-Sound r false = finish-Sound i r (some failed) none
  picked_up-Sound r true =
      Sound-bind i 0 0 0 _ _ (Sound-set_state i 0 r _ with_answer-KeepsCall) λ _.
        Sound-bind i 0 0 0 _ _ (Sound-state_at i 0 r) λ s.
          Sound-bind i 0 0 0 _ _
            (Sound-for_some i 0 _ _ λ j.
              Sound-journal i 0 _ (λ a. mark_answered a.world.db.calls a.clock j s.bridge_id)
                (λ a. omega (arith, mark_answered-next_id a.world.db.calls a.clock j s.bridge_id)))
            λ _.
              Sound-bind i 0 0 0 _ _ (Sound-state_at i 0 r) (λ t. Sound-emit i 0 0 _ (omega arith))

  join_legs-Sound :
      (r : ℕ) (channel : Text) (s : CallState) → Sound {e = e} i 0 (join_legs r channel s) 0
  unfolding join_legs
  join_legs-Sound r channel s = Sound-bind i 0 0 0 _ _ (Sound-request i 0 _ refl) λ _.
      Sound-bind i 0 0 0 _ _ (Sound-try_request i 0 _ refl)
        λ up. Sound-bind i 0 0 0 _ _ (join_outbound-Sound r channel up) (picked_up-Sound r)

  second_leg-Sound :
      (channel : Text) (found : Option (ℕ × CallState))
      → Sound {e = e} i 0 (second_leg channel found) 0
  unfolding second_leg
  second_leg-Sound channel none = Sound-request i 0 _ refl
  second_leg-Sound channel (some (r, s)) = join_legs-Sound r channel s

  on_outbound_start-Sound :
      (channel : Text) (args : List Text) → Sound {e = e} i 0 (on_outbound_start channel args) 0
  unfolding on_outbound_start
  on_outbound_start-Sound channel args =
      Sound-bind i 0 0 0 _ _ (Sound-reads i 0 _)
        λ inbound. Sound-bind i 0 0 0 _ _ (Sound-reads i 0 _) (second_leg-Sound channel)

  leg_ended-Sound :
      (channel : Text) (held : Option ℕ) → Sound {e = e} i 0 (leg_ended channel held) 0
  unfolding leg_ended
  leg_ended-Sound channel (some r) = finish-Sound i r none none
  leg_ended-Sound channel none = Sound-bind i 0 0 0 _ _ (Sound-reads i 0 _) λ held.
      Sound-bind i 0 0 0 _ _ (pop_outbound-Sound i 0 channel)
        (λ _. Sound-for_some i 0 _ _ (λ r. finish-Sound i r none none))

  callee_gone-Sound : (r : ℕ) (cause : Option ℕ) → Sound {e = e} i 0 (callee_gone r cause) 0
  unfolding callee_gone
  callee_gone-Sound r cause =
      Sound-bind i 0 0 0 _ _ (Sound-state_at i 0 r)
        λ s. Sound-if i 0 0 s.answered _ _ (finish-Sound i r none cause) (finish-Sound i r _ cause)

  outbound_destroyed-Sound :
      (channel : Text) (cause held : Option ℕ)
      → Sound {e = e} i 0 (outbound_destroyed channel cause held) 0
  unfolding outbound_destroyed
  outbound_destroyed-Sound channel cause (some r) = callee_gone-Sound r cause
  outbound_destroyed-Sound channel cause none = pop_outbound-Sound i 0 channel

  cause_known-Sound :
      (channel : Text) (pending cause : Option ℕ)
      → Sound {e = e} i 0 (cause_known channel pending cause) 0
  unfolding cause_known
  cause_known-Sound channel (some j) (some cause) =
      Sound-journal i 0 _ (λ a. set_hangup_cause a.world.db.calls j (decimal cause))
        λ a. omega (arith, set_hangup_cause-next_id a.world.db.calls j (decimal cause))
  cause_known-Sound channel none cause =
      Sound-bind i 0 0 0 _ _ (Sound-reads i 0 _) (outbound_destroyed-Sound channel cause)
  cause_known-Sound channel (some j) none =
      Sound-bind i 0 0 0 _ _ (Sound-reads i 0 _) (outbound_destroyed-Sound channel none)

  channel_gone-Sound :
      (channel : Text) (cause held : Option ℕ)
      → Sound {e = e} i 0 (channel_gone channel cause held) 0
  unfolding channel_gone
  channel_gone-Sound channel cause (some r) = finish-Sound i r none cause
  channel_gone-Sound channel cause none = Sound-bind i 0 0 0 _ _ (Sound-reads i 0 _) λ pending.
      Sound-bind i 0 0 0 _ _
        (Sound-writes i 0 0 _ λ a.
          Moves-aside i a _ 0 refl refl (omega arith)
            (λ p. omega (arith, dict_pop-length channel a.pending_cause)))
        (λ _. cause_known-Sound channel pending cause)

  pub handle_event-Sound : (event : Event) → Sound {e = e} i 0 (handle_event event) 0
  unfolding handle_event on_stasis_start on_stasis_end on_channel_destroyed
  handle_event-Sound (stasis_start args channel caller exten) =
      Sound-if i 0 0 _ _ _ (Sound-pure i 0 tt) (
        Sound-if i 0 0 (is_outbound args) _ _ (on_outbound_start-Sound channel args)
          (on_inbound-Sound channel _ _))
  handle_event-Sound (stasis_end channel) =
      Sound-bind i 0 0 0 _ _ (Sound-reads i 0 _) (leg_ended-Sound channel)
  handle_event-Sound (channel_destroyed channel cause) =
      Sound-bind i 0 0 0 _ _ (Sound-reads i 0 _) (channel_gone-Sound channel cause)
  handle_event-Sound other_event = Sound-pure i 0 tt

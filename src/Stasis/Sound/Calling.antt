-- ===== src/Stasis/Sound/Calling.antt =====
-- app/ari/stasis.py: `_connect` and `_ask_for_code` are in order.
use number_masking_service.Prelude.{
  ℕ, zero, suc, ◌≡◌, refl, Option, none, some, List, [], ◌∷◌, Bool, true, false, Text, text_eq_refl,
  or_else, arith, leb,
}
use number_masking_service.Journal.{rejected, failed, no_answer, attach_session}
use number_masking_service.Journal.Sequence.{attach_session-next_id}
use number_masking_service.Lookup.{Candidate}
use number_masking_service.Stasis.{
  Env, App, CallState, Coroutine, originate, ◌>>=◌, try_request, state_at, some_or_fail, nth,
  succeeded,
}
use number_masking_service.Stasis.Teardown.{reject_cause}
use number_masking_service.Stasis.Connect.{
  chosen, with_bridge, with_outbound, origination, originate_watchdog, new_bridge_id, limit_reached,
  ring_first, join_bridge, bridge_up, after_originate, dial, call_out, after_bridge, within_limit,
  connect, attach, typed, enter_media, prompts, ask_for_code, no_answer_cause, endpoint_for,
}
use number_masking_service.Stasis.Fine.{Fine, Sound, knows}
use number_masking_service.Stasis.Fine.Writes.{KeepsCall, Moves-aside}
use number_masking_service.Stasis.Sound.{
  Sound-pure, Sound-bind, Sound-request, Sound-try_request, Sound-ask_text, Sound-reads,
  Sound-state_at, Sound-some_or_fail, Sound-writes, Sound-set_state, Sound-when, Sound-for_some,
  Sound-if, Sound-read, Sound-journal,
}
use number_masking_service.Stasis.Sound.Ending.{
  play-Sound, pop_outbound-Sound, finish-Sound, reject-Sound,
}

-- The channel of a state in the heap is known with its proxy number.
knows-nth :
    (r : ℕ) (heap : List CallState) (s : CallState)
    → nth r heap ≡ some s
    → knows heap s.channel_id s.proxy_e164 ≡ true
knows-nth r [] s h = cc
knows-nth zero (x ∷ heap) s h =
    ground (arith, h, text_eq_refl s.channel_id, text_eq_refl s.proxy_e164)
knows-nth (suc r) (x ∷ heap) s h = ground (arith, knows-nth r heap s h)

chosen-KeepsCall : (candidate : Candidate) → KeepsCall (chosen candidate)
unfolding chosen
chosen-KeepsCall candidate = record {
  call_id = λ s. refl;
  finishing = λ s. refl;
  channel_id = λ s. refl;
  proxy_e164 = λ s. refl;
}

with_bridge-KeepsCall : (bridge : Text) → KeepsCall (with_bridge bridge)
unfolding with_bridge
with_bridge-KeepsCall bridge = record {
  call_id = λ s. refl;
  finishing = λ s. refl;
  channel_id = λ s. refl;
  proxy_e164 = λ s. refl;
}

with_outbound-KeepsCall : (outbound : Text) → KeepsCall (with_outbound outbound)
unfolding with_outbound
with_outbound-KeepsCall outbound = record {
  call_id = λ s. refl;
  finishing = λ s. refl;
  channel_id = λ s. refl;
  proxy_e164 = λ s. refl;
}

module _ {e : Env} (i : ℕ) where
  originate_watchdog-Sound : (r : ℕ) → Sound {e = e} i 0 (originate_watchdog r) 0
  unfolding originate_watchdog
  originate_watchdog-Sound r = Sound-bind i 0 0 0 _ _ (Sound-request i 0 _ refl) λ _.
      Sound-bind i 0 0 0 _ _ (Sound-state_at i 0 r)
        λ s. Sound-when i 0 _ _ (finish-Sound i r (some no_answer) (some no_answer_cause))

  limit_reached-Sound :
      (candidate : Candidate) (limit : Option ℕ)
      → Sound {e = e} i 0 (limit_reached candidate limit) 0
  unfolding limit_reached
  limit_reached-Sound candidate none = Sound-pure i 0 false
  limit_reached-Sound candidate (some limit) =
      Sound-bind i 0 0 0 _ _ (Sound-read i 0 _) (λ used. Sound-pure i 0 (leb limit used))

  ring_first-Sound : (r : ℕ) (already : Bool) → Sound {e = e} i 0 (ring_first r already) 0
  unfolding ring_first
  ring_first-Sound r true = Sound-pure i 0 true
  ring_first-Sound r false =
      Sound-bind i 0 0 0 _ _ (Sound-state_at i 0 r) (λ s. Sound-try_request i 0 _ refl)

  new_bridge_id-Sound : Sound {e = e} i 0 new_bridge_id 0
  unfolding new_bridge_id
  new_bridge_id-Sound = Sound-bind i 0 0 0 _ _ (Sound-reads i 0 (λ a. a.drawn)) λ n.
      Sound-bind i 0 0 0 _ _
        (Sound-writes i 0 0 _ (λ a. Moves-aside i a _ 0 refl refl (omega arith) (λ p. p)))
        (λ _. Sound-pure i 0 _)

  join_bridge-Sound :
      (r : ℕ) (bridge : Text) (created : Bool) → Sound {e = e} i 0 (join_bridge r bridge created) 0
  unfolding join_bridge
  join_bridge-Sound r bridge false = Sound-pure i 0 false
  join_bridge-Sound r bridge true =
      Sound-bind i 0 0 0 _ _ (Sound-set_state i 0 r _ (with_bridge-KeepsCall bridge))
        λ _. Sound-bind i 0 0 0 _ _ (Sound-state_at i 0 r) (λ s. Sound-try_request i 0 _ refl)

  bridge_up-Sound :
      (r : ℕ) (candidate : Candidate) (rung : Bool)
      → Sound {e = e} i 0 (bridge_up r candidate rung) 0
  unfolding bridge_up
  bridge_up-Sound r candidate false = Sound-pure i 0 false
  bridge_up-Sound r candidate true =
      Sound-bind i 0 0 0 _ _ new_bridge_id-Sound
        λ bridge. Sound-bind i 0 0 0 _ _ (Sound-try_request i 0 _ refl) (join_bridge-Sound r bridge)

  -- The request is made in the step that reads the state, so its call is known.
  dial-Sound :
      (r : ℕ) (candidate : Candidate) (endpoint : Text)
      → Sound {e = e} i 0 (dial r candidate endpoint) 0
  unfolding dial ◌>>=◌ state_at try_request
  dial-Sound r candidate endpoint = record { fine = λ k h a. named (nth r a.heap) a refl k h }
    where
      named :
          (o : Option CallState) (a : App e)
          → nth r a.heap ≡ o
          → (k : Bool → Coroutine e) → ((x : Bool) (b : App e) → Fine i 0 (k x) b)
          → Fine i 0
              (some_or_fail o (λ s. try_request (originate (origination e candidate endpoint s)) k))
              a
      named none a found k h = tt
      named (some s) a found k h =
          ((s.proxy_e164, knows-nth r a.heap s found, refl), λ reply b. h (succeeded reply) b)

  after_originate-Sound :
      (r : ℕ) (outbound : Text) (originated : Bool)
      → Sound {e = e} i 0 (after_originate r outbound originated) 0
  unfolding after_originate
  after_originate-Sound r outbound true = record {
    fine = λ k h a. ((originate_watchdog-Sound r).fine _ (λ x b. tt), h tt a);
  }
  after_originate-Sound r outbound false =
      Sound-bind i 0 0 0 _ _ (pop_outbound-Sound i 0 outbound)
        (λ _. reject-Sound i r (some e.settings.sound_error) failed)

  call_out-Sound : (r : ℕ) (candidate : Candidate) → Sound {e = e} i 0 (call_out r candidate) 0
  unfolding call_out
  call_out-Sound r candidate = Sound-bind i 0 0 0 _ _ (Sound-state_at i 0 r) λ s.
      Sound-bind i 0 0 0 _ _
        (Sound-writes i 0 0 _ (λ a. Moves-aside i a _ 0 refl refl (omega arith) (λ p. p)))
        λ _. Sound-bind i 0 0 0 _ _ (Sound-set_state i 0 r _ (with_outbound-KeepsCall _)) λ _.
          Sound-bind i 0 0 0 _ _
            (Sound-some_or_fail i 0
              (endpoint_for e.settings.endpoint_template candidate.callee_e164))
            λ endpoint.
              Sound-bind i 0 0 0 _ _ (dial-Sound r candidate endpoint) (after_originate-Sound r _)

  after_bridge-Sound :
      (r : ℕ) (candidate : Candidate) (bridged : Bool)
      → Sound {e = e} i 0 (after_bridge r candidate bridged) 0
  unfolding after_bridge
  after_bridge-Sound r candidate true = call_out-Sound r candidate
  after_bridge-Sound r candidate false = reject-Sound i r (some e.settings.sound_error) failed

  within_limit-Sound :
      (r : ℕ) (candidate : Candidate) (already full : Bool)
      → Sound {e = e} i 0 (within_limit r candidate already full) 0
  unfolding within_limit
  within_limit-Sound r candidate already true =
      reject-Sound i r (some e.settings.sound_expired) rejected
  within_limit-Sound r candidate already false =
      Sound-bind i 0 0 0 _ _ (ring_first-Sound r already) λ rung.
        Sound-bind i 0 0 0 _ _ (bridge_up-Sound r candidate rung) (after_bridge-Sound r candidate)

  pub connect-Sound :
      (r : ℕ) (candidate : Candidate) (already : Bool)
      → Sound {e = e} i 0 (connect r candidate already) 0
  unfolding connect
  connect-Sound r candidate already =
      Sound-bind i 0 0 0 _ _ (Sound-set_state i 0 r _ (chosen-KeepsCall candidate)) λ _.
        Sound-bind i 0 0 0 _ _ (limit_reached-Sound candidate candidate.max_calls)
          (within_limit-Sound r candidate already)

  attach-Sound : (r : ℕ) (candidate : Candidate) → Sound {e = e} i 0 (attach r candidate) 0
  unfolding attach
  attach-Sound r candidate = Sound-bind i 0 0 0 _ _ (Sound-state_at i 0 r) λ s.
      Sound-for_some i 0 _ _ λ j.
        Sound-journal i 0 (λ a. tt)
          (λ a. attach_session a.world.db.calls j candidate.session_id candidate.direction)
          (λ a. omega (
            arith,
            attach_session-next_id a.world.db.calls j candidate.session_id candidate.direction,
          ))

  prompts-Sound :
      (r : ℕ) (candidates : List Candidate) (left : ℕ) (first : Bool)
      → Sound {e = e} i 0 (prompts r candidates left first) 0
  unfolding prompts
  prompts-Sound r candidates zero first = Sound-bind i 0 0 0 _ _ (Sound-state_at i 0 r) λ s.
      Sound-bind i 0 0 0 _ _ (play-Sound i 0 s.channel_id e.settings.sound_wrong_code)
        (λ _. finish-Sound i r (some rejected) (some reject_cause))
  prompts-Sound r candidates (suc left) first = Sound-bind i 0 0 0 _ _ (Sound-state_at i 0 r) λ s.
      Sound-bind i 0 0 0 _ _ (play-Sound i 0 s.channel_id (enter_media e first)) λ _.
        Sound-bind i 0 0 0 _ _ (Sound-ask_text i 0 _ refl) λ digits.
          picked (typed candidates (or_else digits [])) (prompts-Sound r candidates left false)
    where
      picked :
          (o : Option Candidate)
          → Sound {e = e} i 0 (prompts r candidates left false) 0
          → Sound {e = e} i 0
              (λ k. elim o [
                | none ↦ prompts r candidates left false k
                | some candidate ↦ (attach r candidate >>= λ _. connect r candidate true) k
              ])
              0
      picked none h = record { fine = h.fine }
      picked (some candidate) h = record {
        fine =
            (Sound-bind i 0 0 0 _ _ (attach-Sound r candidate)
              (λ _. connect-Sound r candidate true)).fine;
      }

  pub ask_for_code-Sound :
      (r : ℕ) (candidates : List Candidate) → Sound {e = e} i 0 (ask_for_code r candidates) 0
  unfolding ask_for_code
  ask_for_code-Sound r candidates = Sound-bind i 0 0 0 _ _ (Sound-state_at i 0 r) λ s.
      Sound-bind i 0 0 0 _ _ (Sound-try_request i 0 _ refl) λ ok.
        Sound-bind i 0 0 0 _ _ (Sound-state_at i 0 r) λ t.
          Sound-if i 0 0 ok _ _
            (Sound-if i 0 0 t.collecting _ _ (prompts-Sound r candidates _ true)
              (finish-Sound i r (some failed) none))
            (finish-Sound i r (some failed) none)

-- ===== src/Stasis/Inbound.antt =====
-- app/ari/stasis.py: `_on_stasis_start` for the first leg of a call.
use number_masking_service.Prelude.{
  ℕ, suc, Option, none, some, [], ◌∷◌, true, false, Text, text_eq, codes, if◌then◌else◌, ◌++◌,
  length,
}
use mathlib.Core.Option
use number_masking_service.Errors.{Result, ok, err}
use number_masking_service.Journal.{
  CallStatus, in_progress, failed, expired, unknown_caller, start_call,
}
use number_masking_service.Lookup.{Candidate}
use number_masking_service.Routing.{Action, Decision, reject, ask_code, resolve_call}
use number_masking_service.Stasis.{
  Env, App, CallState, spawn, stop, Async, set_variable, subscribe_channel, call_started, request,
  set_state, emit, try_transaction, dict_set, ◌>>=◌, ◌>>◌,
}
use number_masking_service.Stasis.Teardown.{reject as hang_up, fail_channel}
use number_masking_service.Stasis.Connect.{connect, ask_for_code}

-- The final statuses that a verdict names.
unfoldable pub status_of : Text → CallStatus
status_of t =
    if text_eq t (codes "expired")
    then expired
    else if text_eq t (codes "failed")
    then failed
    else unknown_caller

unfoldable pub new_state : Text → Decision → ℕ → CallState
new_state channel d i = record {
  channel_id = channel;
  caller_hash = d.caller_hash;
  proxy_e164 = d.proxy_e164;
  trace_id = none;
  call_id = some i;
  session_id = none;
  direction = none;
  callee_e164 = none;
  bridge_id = none;
  outbound_channel_id = none;
  collecting = false;
  answered = false;
  finishing = false;
  final_status = none;
}

unfoldable pub with_collector : CallState → CallState
with_collector s = record s { collecting = true }

-- The place of the new call, the verdict and the journal row.
abbrev pub Opened : Type 0
Opened = ℕ × Decision × ℕ

module _ {e : Env} where
  unfoldable pub opened : Text → App e → Result (Decision × e.redis.Store) → Result (Opened × App e)
  unfolding new_state
  opened channel a (err x) = err x
  opened channel a (ok (d, cache)) =
      let (call, j) =
        start_call a.world.db.calls a.clock d.caller_hash d.proxy_e164 channel
          (Option.map (λ (c : Candidate). c.session_id) d.candidate)
          (Option.map (λ (c : Candidate). c.direction) d.candidate) in_progress in
      let place = length a.heap in
      ok (
        (place, d, call.id),
        record a {
          world = record { db = record a.world.db { calls = j }; cache = cache };
          drawn = suc a.drawn;
          heap = a.heap ++ new_state channel d call.id ∷ [];
          calls = dict_set channel place a.calls;
        },
      )

  -- The transaction of a new call: the verdict and the journal row. The state of the call comes to be
  -- in the same step.
  unfoldable pub open_call : Text → Text → Text → App e → Result (Opened × App e)
  unfolding opened
  open_call channel proxy caller a = opened channel a (
      resolve_call e.redis e.primitives e.unicode e.settings a.world.cache a.world.db proxy caller
        a.clock (e.nonce a.drawn))

  -- A task of the call.
  unfoldable pub start_task : ℕ → Async e (Unit {0}) → Async e (Unit {0})
  start_task r task = λ k. spawn (some r) (task (λ _. stop)) (k tt)

  unfoldable pub connect_route : ℕ → Option Candidate → Async e (Unit {0})
  unfolding start_task
  connect_route r none = hang_up r (some e.settings.sound_error) failed
  connect_route r (some candidate) = start_task r (connect r candidate false)

  unfoldable pub follow : ℕ → Decision → Action → Async e (Unit {0})
  unfolding connect_route status_of with_collector start_task
  follow r d reject = start_task r (hang_up r d.prompt (status_of d.reject_status))
  follow r d ask_code = do set_state r with_collector; start_task r (ask_for_code r d.candidates)
  follow r d Action.connect = connect_route r d.candidate

  unfoldable pub accept : Text → Option Opened → Async e (Unit {0})
  unfolding follow
  accept channel none = λ k. spawn none (fail_channel channel (λ _. stop)) (k tt)
  accept channel (some (r, d, i)) = do
    emit (call_started (some i) d.session_id d.proxy_e164 channel)
    follow r d d.action

  -- The part of `_on_stasis_start` for the first leg.
  unfoldable pub on_inbound : Text → Text → Text → Async e (Unit {0})
  unfolding open_call accept
  on_inbound channel proxy caller = do
    request (set_variable channel (codes "CALLERID(name)") [])
    request (subscribe_channel e.settings.ari_app channel)
    got ← try_transaction (open_call channel proxy caller)
    accept channel got

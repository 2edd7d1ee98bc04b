-- ===== src/Stasis/Connect.antt =====
-- app/ari/stasis.py: the second leg of a call, and the PIN that may choose it.
use number_masking_service.Prelude.{
  ℕ, zero, suc, ◌+◌, Option, none, some, List, [], ◌∷◌, ◌++◌, Bool, true, false, not, ◌||◌, Text,
  codes, is_empty, or_else, leb, ◌==◌, if◌then◌else◌,
}
use number_masking_service.Errors.{ok}
use number_masking_service.Phone.{plus, starts_with}
use number_masking_service.Journal.{
  rejected, failed, no_answer, attach_session, answered_call_count,
}
use number_masking_service.Lookup.{Candidate, select_by_code}
use number_masking_service.Stasis.{
  Env, CallState, Origination, Coroutine, spawn, Async, answer, ring, create_bridge, add_to_bridge,
  originate, sleep, collect, ◌>>=◌, ◌>>◌, pure, request, try_request, ask_text, reads, state_at,
  set_state, writes, when, for_some, some_or_fail, transact, dict_set,
}
use number_masking_service.Stasis.Teardown.{
  play, finish, reject, reject_cause, pop_outbound, with_journal,
}

abbrev pub no_answer_cause : ℕ
no_answer_cause = 19

abbrev pub originate_grace_seconds : ℕ
originate_grace_seconds = 5

-- `callee_e164.lstrip("+")`.
unfoldable pub strip_plus : Text → Text
strip_plus [] = []
strip_plus (c ∷ t) = let rest = strip_plus t in if c == plus then rest else c ∷ t

-- A text in front of what a format still gives; `none` where `str.format` raises.
abbrev prepend : Text → Option Text → Option Text
prepend s none = none
prepend s (some t) = some (s ++ t)

-- `template.format(number=…, digits=…)`, for templates whose fields have neither conversion nor
-- format; `skip` characters are of the field or the brace before them.
unfoldable pub format_from : Text → Text → ℕ → Text → Option Text
format_from number digits skip [] = some []
format_from number digits (suc skip) (c ∷ t) = format_from number digits skip t
format_from number digits zero (c ∷ t) =
    let field = λ (n : ℕ). format_from number digits n t in
    if starts_with (c ∷ t) (codes "{number}")
    then prepend number (field 7)
    else if starts_with (c ∷ t) (codes "{digits}")
    then prepend digits (field 7)
    else if starts_with (c ∷ t) (codes "{{")
    then prepend (codes "{") (field 1)
    else if starts_with (c ∷ t) (codes "}}")
    then prepend (codes "}") (field 1)
    else if (c == 123) || (c == 125)
    then none
    else prepend (c ∷ []) (field 0)

-- `_endpoint_for`.
unfoldable pub endpoint_for : Text → Text → Option Text
unfolding strip_plus format_from
endpoint_for template callee = format_from callee (strip_plus callee) 0 template

-- `f'"{proxy}" <{proxy}>'`.
unfoldable pub caller_identity : Text → Text
caller_identity proxy = codes "\"" ++ (proxy ++ (codes "\" <" ++ (proxy ++ codes ">")))

unfoldable pub outbound_id : Text → Text
outbound_id channel = channel ++ codes "-b"

unfoldable pub chosen : Candidate → CallState → CallState
chosen candidate s = record s {
  trace_id = candidate.trace_id;
  session_id = some candidate.session_id;
  direction = some candidate.direction;
  callee_e164 = some candidate.callee_e164;
}

unfoldable pub with_bridge : Text → CallState → CallState
with_bridge bridge s = record s { bridge_id = some bridge }

unfoldable pub with_outbound : Text → CallState → CallState
with_outbound outbound s = record s { outbound_channel_id = some outbound }

unfoldable pub origination : (e : Env) → Candidate → Text → CallState → Origination
unfolding caller_identity outbound_id
origination e candidate endpoint s = record {
  endpoint = endpoint;
  app_args = codes "outbound," ++ (s.channel_id ++ (codes "," ++ e.show_uuid candidate.session_id));
  caller_id = caller_identity s.proxy_e164;
  timeout = e.settings.originate_timeout;
  originator = s.channel_id;
  channel_id = outbound_id s.channel_id;
}

unfoldable pub typed : List Candidate → Text → Option Candidate
typed candidates digits = if is_empty digits then none else select_by_code candidates digits

unfoldable pub enter_media : Env → Bool → Text
enter_media e true = e.settings.sound_enter_code
enter_media e false = e.settings.sound_wrong_code

module _ {e : Env} where
  -- `_originate_watchdog`.
  unfoldable pub originate_watchdog : ℕ → Async e (Unit {0})
  originate_watchdog r = do
    request (sleep (e.settings.originate_timeout + originate_grace_seconds))
    s ← state_at r
    when (not (s.answered || s.finishing)) (finish r (some no_answer) (some no_answer_cause))

  -- `f"masking-{uuid.uuid4()}"`.
  unfoldable pub new_bridge_id : Async e Text
  new_bridge_id = do
    n ← reads (λ a. a.drawn)
    writes λ a. record a { drawn = suc a.drawn }
    pure (codes "masking-" ++ e.uuid4 n)

  -- Whether the session has had all its calls.
  unfoldable pub limit_reached : Candidate → Option ℕ → Async e Bool
  limit_reached candidate none = pure false
  limit_reached candidate (some limit) = do
    used ← transact (λ a. ok (answered_call_count a.world.db.calls candidate.session_id, a))
    pure (leb limit used)

  unfoldable pub ring_first : ℕ → Bool → Async e Bool
  ring_first r true = pure true
  ring_first r false = do s ← state_at r; try_request (ring s.channel_id)

  unfoldable pub join_bridge : ℕ → Text → Bool → Async e Bool
  unfolding with_bridge
  join_bridge r bridge false = pure false
  join_bridge r bridge true = do
    set_state r (with_bridge bridge)
    s ← state_at r
    try_request (add_to_bridge bridge s.channel_id)

  unfoldable pub bridge_up : ℕ → Candidate → Bool → Async e Bool
  unfolding new_bridge_id join_bridge
  bridge_up r candidate false = pure false
  bridge_up r candidate true = do
    bridge ← new_bridge_id
    created ← try_request (create_bridge bridge (e.show_uuid candidate.session_id))
    join_bridge r bridge created

  unfoldable pub after_originate : ℕ → Text → Bool → Async e (Unit {0})
  unfolding originate_watchdog
  after_originate r outbound true =
      λ k. spawn (some r) (originate_watchdog r (λ _. Coroutine.stop)) (k tt)
  after_originate r outbound false = do
    pop_outbound outbound
    reject r (some e.settings.sound_error) failed

  -- The request names the caller by the proxy number of the call.
  unfoldable pub dial : ℕ → Candidate → Text → Async e Bool
  unfolding origination
  dial r candidate endpoint = do
    s ← state_at r
    try_request (originate (origination e candidate endpoint s))

  unfoldable pub call_out : ℕ → Candidate → Async e (Unit {0})
  unfolding outbound_id with_outbound endpoint_for dial after_originate
  call_out r candidate = do
    s ← state_at r
    let outbound = outbound_id s.channel_id
    writes
        λ a. record a { outbound_to_inbound = dict_set outbound s.channel_id a.outbound_to_inbound }
    set_state r (with_outbound outbound)
    endpoint ← some_or_fail (endpoint_for e.settings.endpoint_template candidate.callee_e164)
    originated ← dial r candidate endpoint
    after_originate r outbound originated

  unfoldable pub after_bridge : ℕ → Candidate → Bool → Async e (Unit {0})
  unfolding call_out
  after_bridge r candidate true = call_out r candidate
  after_bridge r candidate false = reject r (some e.settings.sound_error) failed

  unfoldable pub within_limit : ℕ → Candidate → Bool → Bool → Async e (Unit {0})
  unfolding ring_first bridge_up after_bridge
  within_limit r candidate already_answered true = reject r (some e.settings.sound_expired) rejected
  within_limit r candidate already_answered false = do
    rung ← ring_first r already_answered
    bridged ← bridge_up r candidate rung
    after_bridge r candidate bridged

  -- `_connect`.
  unfoldable pub connect : ℕ → Candidate → Bool → Async e (Unit {0})
  unfolding chosen limit_reached within_limit
  connect r candidate already_answered = do
    set_state r (chosen candidate)
    full ← limit_reached candidate candidate.max_calls
    within_limit r candidate already_answered full

  unfoldable pub attach : ℕ → Candidate → Async e (Unit {0})
  unfolding with_journal
  attach r candidate = do
    s ← state_at r
    for_some s.call_id λ i. transact λ a. ok (
      tt,
      with_journal a (attach_session a.world.db.calls i candidate.session_id candidate.direction),
    )

  -- The attempts that are left, and whether this is the first.
  unfoldable pub prompts : ℕ → List Candidate → ℕ → Bool → Async e (Unit {0})
  unfolding enter_media typed attach connect
  prompts r candidates zero first = do
    s ← state_at r
    play s.channel_id e.settings.sound_wrong_code
    finish r (some rejected) (some reject_cause)
  prompts r candidates (suc left) first = do
    s ← state_at r
    play s.channel_id (enter_media e first)
    digits ← ask_text (collect r)
    λ k. elim (typed candidates (or_else digits [])) [
      | none ↦ prompts r candidates left false k
      | some candidate ↦ (attach r candidate >> connect r candidate true) k
    ]

  -- `_ask_for_code`.
  unfoldable pub ask_for_code : ℕ → List Candidate → Async e (Unit {0})
  unfolding prompts
  ask_for_code r candidates = do
    s ← state_at r
    picked_up ← try_request (answer s.channel_id)
    t ← state_at r
    if picked_up
        then (if t.collecting
            then prompts r candidates e.settings.dtmf_max_attempts true
            else finish r (some failed) none)
        else finish r (some failed) none

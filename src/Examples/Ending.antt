-- ===== src/Examples/Ending.antt =====
-- A call that two legs are bridged for, and trials of the theorems on one run of a coroutine at it.
use number_masking_service.Prelude.{
  ◌≤◌, ◌≡◌, refl, none, some, List, [], ◌∷◌, codes, true, false, count, or_else, arith,
}
use number_masking_service.Journal.{Call, a2b, answered, answered_call_count}
use number_masking_service.Lookup.{Candidate}
use number_masking_service.Stasis.{
  App, CallState, Await, Reply, done, raised, answer_text, transaction, stop, dict_get,
}
use number_masking_service.Stasis.Teardown.{finish, infer_status}
use number_masking_service.Stasis.Connect.{ask_for_code}
use number_masking_service.Stasis.Budget.{asked}
use number_masking_service.Stasis.Budget.Limits.{is_prompt, is_dial, ask_for_code-bounded}
use number_masking_service.Stasis.Alone.{alone}
use number_masking_service.Stasis.Alone.Release.{releases, journalled}
use number_masking_service.Stasis.Alone.Finish.{finish-releases}
use number_masking_service.Examples.{alice, bob}
use number_masking_service.Examples.Calls.{talk_db, proxy, route}
use number_masking_service.Examples.Handling.{env}

abbrev row : Call
row = record {
  id = 1;
  session_id = some 7;
  direction = some a2b;
  caller_hash = alice;
  proxy_e164 = proxy;
  started_at = 100;
  answered_at = some 110;
  ended_at = none;
  duration_sec = none;
  status = answered;
  hangup_cause = none;
  channel_id = some (codes "c");
  bridge_id = some (codes "b");
}

abbrev state : CallState
state = record {
  channel_id = codes "c";
  caller_hash = alice;
  proxy_e164 = proxy;
  trace_id = none;
  call_id = some 1;
  session_id = some 7;
  direction = some a2b;
  callee_e164 = some bob;
  bridge_id = some (codes "b");
  outbound_channel_id = some (codes "c-b");
  collecting = false;
  answered = true;
  finishing = false;
  final_status = none;
}

abbrev talking : App env
talking = record {
  world = record {
    db = record talk_db { calls = record { rows = row ∷ []; next_id = 2 } };
    cache = tt;
  };
  clock = 200;
  drawn = 0;
  heap = state ∷ [];
  calls = (codes "c", 0) ∷ [];
  outbound_to_inbound = (codes "c-b", codes "c") ∷ [];
  pending_cause = [];
  outbox = [];
}

-- Asterisk is gone, the database is there.
abbrev replies : Await → Reply
replies transaction = done
replies _ = raised

finish-releases_example :
    (b : App env) × (alone replies talking (finish 0 none (some 16) (λ _. stop))
      ≡ (b, releases state (some 16)))
    × (dict_get (codes "c") b.calls ≡ none)
    × (b.world.db.calls
        ≡ journalled
            (some 1)
            talking.world.db.calls
            200
            (or_else none (infer_status state (some 16)))
            (some 16)
            state)
finish-releases_example = finish-releases replies talking 0 state none (some 16) refl refl refl

abbrev inputs : List (Reply × App env)
inputs =
    (done, talking) ∷ (answer_text (codes "42"), talking) ∷ (raised, talking) ∷ (done, talking) ∷ []

ask_for_code-bounded_example :
    (count is_prompt (asked inputs talking (ask_for_code 0 (route ∷ []) (λ _. stop))) ≤ 3)
    × (count is_dial (asked inputs talking (ask_for_code 0 (route ∷ []) (λ _. stop))) ≤ 1)
ask_for_code-bounded_example = ask_for_code-bounded inputs talking 0 (route ∷ [])

abbrev capped : Candidate
capped = record route { max_calls = some 1 }

one_answered : 1 ≤ answered_call_count talking.world.db.calls 7
unfolding answered_call_count
one_answered = omega arith

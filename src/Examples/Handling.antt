-- ===== src/Examples/Handling.antt =====
-- A call of Alice to Bob, and trials of the theorems on the handling of calls at it.
use number_masking_service.Prelude.{
  ℕ, zero, suc, ◌≤◌, ◌≡◌, refl, none, some, List, [], ◌∷◌, ◌++◌, Text, codes, text_eq, true, In,
  here, there, length,
}
use number_masking_service.Unicode.{ascii}
use number_masking_service.Prelude.Sorts.{sort}
use number_masking_service.Crypto.{decrypt_e164, party_hash}
use number_masking_service.Db.{find_number}
use number_masking_service.Lookup.{load_candidates}
use number_masking_service.Routing.{resolve_call, resolve_from_db, remember, decide}
use number_masking_service.Stasis.Connect.{connect, dial, call_out, endpoint_for, origination}
use number_masking_service.Phone.{normalize_e164}
use number_masking_service.Cache.{cache_get_json}
use number_masking_service.Journal.{start_call}
use number_masking_service.Settings.{webhooks_enabled}
use number_masking_service.Stasis.Handlers.{on_stasis_start}
use number_masking_service.Stasis.Inbound.{
  on_inbound, open_call, opened, connect_route, follow, accept, start_task,
}
use number_masking_service.Sessions.{World}
use number_masking_service.Stasis.{
  Env, Reply, done, Origination, originate, stop, ◌>>=◌, reads, request, try_transaction, emit,
  set_state, pure, state_at, try_request, when, for_some, transact,
}
use number_masking_service.Stasis.Teardown.{pending_cause_limit, present}
use number_masking_service.Stasis.Connect.{caller_identity}
use number_masking_service.Stasis.Handlers.{Event, stasis_start, stasis_end}
use number_masking_service.Stasis.Fine.{ends, flags, knows}
use number_masking_service.Stasis.System.{
  System, Task, settle, at_time, receive, resume_task, started, Reach, start, next,
}
use number_masking_service.Stasis.Handlers.{handle_event}
use number_masking_service.Stasis.Safety.{finish-once, originate-masked, pending_cause-bounded}
use number_masking_service.Examples.{toy, empty_redis, plain_settings, alice, nonce}
use number_masking_service.Examples.Calls.{talk_db, proxy}

abbrev pub env : Env
env = record {
  settings = record plain_settings {
    webhook_url = codes "https://hook";
    webhook_secret = codes "secret";
  };
  unicode = ascii;
  primitives = toy;
  redis = empty_redis;
  uuid4 = λ n. n ∷ [];
  nonce = λ n. nonce;
  show_uuid = λ n. n ∷ [];
}

abbrev world : World empty_redis
world = record { db = talk_db; cache = tt }

abbrev at_start : System env
at_start = started world 200

-- The task that began to wait last is resumed.
abbrev newest : Reply → System env → System env
newest reply s = elim s.tasks [
  | [] ↦ s
  | t ∷ ts ↦ settle (t.resume reply) t.owner (at_time 200 (record s { tasks = ts }))
]

abbrev run : List Reply → System env → System env
run [] s = s
run (r ∷ rs) s = run rs (newest r s)

newest-Reach : (reply : Reply) (s : System env) → Reach s → Reach (newest reply s)
newest-Reach reply s h = go s.tasks refl
  where
    go :
        (ts : List (Task env))
        → s.tasks ≡ ts
        → Reach (elim ts [
          | [] ↦ s
          | t ∷ ts ↦ settle (t.resume reply) t.owner (at_time 200 (record s { tasks = ts }))
        ])
    go [] same = h
    go (t ∷ ts) same = next h (resume_task 200 [] ts t reply same)

run-Reach : (rs : List Reply) (s : System env) → Reach s → Reach (run rs s)
run-Reach [] s h = h
run-Reach (r ∷ rs) s h = run-Reach rs (newest r s) (newest-Reach r s h)

abbrev pub event : Event → System env → System env
event v s = settle (handle_event v (λ _. stop)) none (at_time 200 s)

abbrev arrival : Event
arrival = stasis_start [] (codes "c") (some alice) (some proxy)

-- Everything that is asked of Asterisk succeeds.
abbrev good : ℕ → List Reply
good zero = []
good (suc n) = done ∷ good n

-- Alice calls the proxy number, and Bob's phone rings.
abbrev pub ringing : System env
ringing = run (good 9) (event arrival at_start)

pub ringing-Reach : Reach ringing
ringing-Reach = run-Reach (good 9) _ (next (start world 200) (receive 200 arrival))

-- Alice hangs up.
abbrev over : System env
over = run (good 6) (event (stasis_end (codes "c")) ringing)

over-Reach : Reach over
over-Reach = run-Reach (good 6) _ (next ringing-Reach (receive 200 (stasis_end (codes "c"))))

finish-once_example :
    (ends 1 over.app.outbox ≤ 1) × (ends 1 over.app.outbox ≤ flags 1 over.app.heap)
finish-once_example = finish-once over 1 over-Reach

-- What Asterisk was asked for Bob's leg.
abbrev leg : Origination
leg = record {
  endpoint = codes "PJSIP/77017654321";
  app_args = codes "outbound,c," ++ 7 ∷ [];
  caller_id = codes "\"+77000000001\" <+77000000001>";
  timeout = 30;
  originator = codes "c";
  channel_id = codes "c-b";
}

leg_dialled : In (originate leg) ringing.trace
unfolding handle_event settle at_time resolve_call resolve_from_db remember decide load_candidates
    decrypt_e164 sort find_number text_eq on_stasis_start on_inbound open_call opened connect_route
    follow accept start_task connect dial call_out endpoint_for origination ◌>>=◌ reads request
    try_transaction normalize_e164 cache_get_json party_hash emit set_state pure state_at
    webhooks_enabled try_request when for_some transact start_call present
leg_dialled = there (there (there (there (there (there (here refl))))))

originate-masked_example :
    (p : Text) × (knows ringing.app.heap (codes "c") p ≡ true) × (leg.caller_id ≡ caller_identity p)
originate-masked_example = originate-masked ringing leg ringing-Reach leg_dialled

pending_cause-bounded_example : length over.app.pending_cause ≤ pending_cause_limit
pending_cause-bounded_example = pending_cause-bounded over over-Reach

-- ===== src/Examples/Racing.antt =====
-- A trial of a call that is looked up while a session is being closed: between the dropping of the
-- cached routes and the commit.
use number_masking_service.Prelude.{◌≡◌, refl, some, [], ◌∷◌, ℕ, text_eq}
use number_masking_service.Prelude.Sorts.{sort}
use number_masking_service.Errors.{ok}
use number_masking_service.Unicode.{ascii}
use number_masking_service.Crypto.{party_hash, encrypt_e164, decrypt_e164}
use number_masking_service.Phone.{normalize_e164}
use number_masking_service.Db.{
  Db, Session, closed, find_session, find_number, update_session, flush,
}
use number_masking_service.Cache.{
  Redis, lookup_key, cache_get_json, cache_set_json, invalidate_number,
}
use number_masking_service.Lookup.{Candidate, load_candidates}
use number_masking_service.Routing.{
  resolve_call, resolve_from_db, decide, remember, route_payload, route_ttl, connection,
  decision_from_cache,
}
use number_masking_service.Routing.Entries.{Visit, verdicts}
use number_masking_service.Sessions.{World, before_commit}
use number_masking_service.Lifecycle.{
  close_session, close_in_db, end_session, mark_number_released, number_e164,
}
use number_masking_service.Examples.{toy, plain_settings, alice, nonce}
use number_masking_service.Examples.Calls.{talk, talk_db, route, proxy}
use number_masking_service.Examples.Reaching.{shelf, glob}

abbrev long_talk : Session
long_talk = record talk { expires_at = 600_000_000 }

abbrev long_route : Candidate
long_route = record route { expires_at = some 600_000_000 }

-- A server whose entries are routes to Bob.
abbrev routes : Redis
routes = record shelf { loads = λ t. some (route_payload toy plain_settings nonce long_route) }

abbrev talking : World routes
talking = record { db = record talk_db { sessions = long_talk ∷ [] }; cache = [] }

abbrev visit : Db → ℕ → Visit
visit db now = record { db = db; dialled = proxy; caller = alice; now = now; nonce = nonce }

abbrev ended : Session
ended = end_session closed 300 long_talk

abbrev over : World routes
over = record {
  db = mark_number_released 300 1 (update_session (end_session closed 300) 7 talking.db);
  cache = [];
}

closed_now : close_session routes 300 7 closed talking ≡ ok (ended, over)
unfolding close_session close_in_db flush update_session find_session mark_number_released
    find_number invalidate_number glob lookup_key number_e164 text_eq end_session
closed_now = refl

-- The first call finds the tables from before, and caches the route; the second one finds the tables
-- in which the session is closed, and is connected by it all the same.
raced :
    verdicts routes toy ascii plain_settings over.cache
      (visit (before_commit routes talking over).db 310 ∷ visit over.db 400 ∷ [])
    ≡ connection proxy alice long_route ∷ connection proxy alice long_route ∷ []
unfolding verdicts before_commit resolve_call resolve_from_db normalize_e164 cache_get_json
    cache_set_json load_candidates sort find_number text_eq decide remember party_hash lookup_key
    route_payload route_ttl connection decision_from_cache decrypt_e164 encrypt_e164
raced = refl

-- ===== src/Examples/Calls.antt =====
-- Trials of the theorems on routing, lookup, the cache and encryption.
use number_masking_service.Prelude.{
  ◌++◌, ◌≡◌, refl, none, some, [], ◌∷◌, Text, codes, text_eq, true, false, All,
}
use number_masking_service.Prelude.Sorts.{sort}
use number_masking_service.Errors.{ok}
use number_masking_service.Unicode.{ascii}
use number_masking_service.Crypto.{encrypt_e164, decrypt_e164}
use number_masking_service.Crypto.Sealing.{decrypt-encrypt}
use number_masking_service.Journal.{a2b}
use number_masking_service.Db.{find_number, Db, Session, SessionParty, active, side_a, side_b}
use number_masking_service.Lookup.{Candidate, load_candidates}
use number_masking_service.Lookup.Live.{IsRoute, load_candidates-IsRoute}
use number_masking_service.Routing.{decide, remember, resolve_from_db, connection}
use number_masking_service.Routing.Verdict.{SpeaksOf, resolve_from_db-SpeaksOf}
use number_masking_service.Examples.{
  toy, toy-IsSound, empty_redis, plain_settings, empty_db, alice, bob, nonce,
}

-- Alice's session with Bob on the number of the pool.
abbrev pub talk : Session
talk = record {
  id = 7;
  number_id = 1;
  ext_code = none;
  status = active;
  external_id = none;
  max_calls = none;
  trace_id = none;
  created_at = 100;
  expires_at = 5000;
  closed_at = none;
}

abbrev pub alice_row : SessionParty
alice_row = record {
  session_id = 7;
  role = side_a;
  number_id = 1;
  party_e164_enc = nonce ++ 0 ∷ alice;
  party_hash = alice;
  is_active = true;
  has_ext_code = false;
  released_at = none;
}

abbrev pub bob_row : SessionParty
bob_row = record {
  session_id = 7;
  role = side_b;
  number_id = 1;
  party_e164_enc = nonce ++ 0 ∷ bob;
  party_hash = bob;
  is_active = true;
  has_ext_code = false;
  released_at = none;
}

abbrev pub talk_db : Db
talk_db = record empty_db { sessions = talk ∷ []; parties = alice_row ∷ bob_row ∷ [] }

abbrev pub proxy : Text
proxy = codes "+77000000001"

abbrev pub route : Candidate
route = record {
  session_id = 7;
  ext_code = none;
  callee_e164 = bob;
  direction = a2b;
  max_calls = none;
  expires_at = some 5000;
  trace_id = none;
}

loaded : load_candidates toy plain_settings talk_db proxy alice 200 ≡ ok (route ∷ [])
unfolding load_candidates decrypt_e164 sort find_number text_eq
loaded = refl

load_candidates-IsRoute_example : All (IsRoute toy [] talk_db proxy alice 200) (route ∷ [])
load_candidates-IsRoute_example =
    load_candidates-IsRoute toy plain_settings talk_db proxy alice 200 (route ∷ []) loaded

resolved :
    resolve_from_db empty_redis toy ascii plain_settings tt talk_db proxy alice 200 nonce
    ≡ ok (connection proxy alice route, tt)
unfolding resolve_from_db remember decide
resolved = rw loaded refl

resolve_from_db-SpeaksOf_example :
    SpeaksOf (IsRoute toy [] talk_db proxy alice 200) (connection proxy alice route)
resolve_from_db-SpeaksOf_example =
    resolve_from_db-SpeaksOf empty_redis toy ascii plain_settings tt tt talk_db proxy alice 200
      nonce (connection proxy alice route) resolved

decrypt-encrypt_example : decrypt_e164 toy (encrypt_e164 toy nonce alice []) [] ≡ ok alice
decrypt-encrypt_example = decrypt-encrypt toy toy-IsSound nonce alice [] refl

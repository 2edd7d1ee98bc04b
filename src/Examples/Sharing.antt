-- ===== src/Examples/Sharing.antt =====
-- Trials of a number that two sessions share: the first gets a PIN when the second is created.
use native.Mathlib.Nat.{mod-lt}
use number_masking_service.Prelude.{
  ◌≡◌, ◌≢◌, ◌++◌, ◌%◌, refl, none, some, List, [], ◌∷◌, map, true, Text, text_eq, text_eq_refl,
  codes, subst, arith,
}
use number_masking_service.Prelude.Sorts.{sort}
use number_masking_service.Errors.{ok}
use number_masking_service.Unicode.{ascii}
use number_masking_service.Journal.{a2b, b2a}
use number_masking_service.Crypto.{
  Primitives, party_hash, generate_ext_code, encrypt_e164, decrypt_e164,
}
use number_masking_service.Crypto.Pins.{IsBelow}
use number_masking_service.Crypto.Sealing.{IsSound}
use number_masking_service.Phone.{normalize_e164}
use number_masking_service.Db.{
  Session, SessionParty, side_a, side_b, find_number, find_session, flush, update_session,
}
use number_masking_service.Cache.{lookup_key, invalidate_number}
use number_masking_service.Allocation.{
  holds, extension_candidates, lock_number, active_ext_codes, Allocation, extension, mem,
  allocate_number, allocate_with_extension_code, exclusive_number, is_candidate,
  promote_conflicting_sessions, sessions_to_promote, fresh_code,
}
use number_masking_service.Lookup.{Candidate, load_candidates}
use number_masking_service.Lookup.Added.{IsKeyed}
use number_masking_service.Sessions.{
  World, Surroundings, SessionCreate, CreatedSession, create_session, create_in_db, check_ttl,
  ttl_or_default, check_max_calls,
}
use number_masking_service.Sessions.Answered.{Answers, shared_session_answers}
use number_masking_service.Examples.{
  toy, plain_settings, empty_db, alice, nonce, request, surroundings,
}
use number_masking_service.Examples.Creating.{born, born_db, normal_alice}
use number_masking_service.Examples.Reaching.{glob, shelf, shelf-IsLawful, shelf-IsUp, named}

-- Primitives that draw one number after the other.
abbrev counting : Primitives
counting = record toy { randbelow = λ draw n. draw % n }

counting-IsBelow : IsBelow counting
counting-IsBelow draw n h = mod-lt draw h

counting-IsSound : IsSound counting
counting-IsSound = record {
  unseal-seal = λ key nonce t. refl;
  tagged = λ key nonce t. omega arith;
  decode-encode = λ t. refl;
}

abbrev carol : Text
carol = codes "+77029998877"

abbrev second_request : SessionCreate
second_request = record request { party_b = carol }

abbrev later : Surroundings
later = record surroundings {
  sql_now = 150;
  created_at = 150;
  expiry_from = 150;
  cache_now = 150;
  uuid = 8;
}

abbrev first_world : World shelf
first_world = record {
  db = born_db;
  cache = (lookup_key (codes "+77000000001") alice, codes "{}") ∷ [];
}

abbrev second : Session
second = record born {
  id = 8;
  ext_code = some (codes "00");
  created_at = 150;
  expires_at = 60_000_150;
}

abbrev coded_party : SessionParty → SessionParty
coded_party p = record p { has_ext_code = true }

abbrev shared : Allocation
shared = record {
  number_id = 1;
  proxy_e164 = codes "+77000000001";
  ext_code = some (codes "00");
  mode = extension;
  promoted_session_ids = 7 ∷ [];
}

abbrev second_parties : List SessionParty
second_parties =
    record {
      session_id = 8;
      role = side_a;
      number_id = 1;
      party_e164_enc = nonce ++ 0 ∷ alice;
      party_hash = alice;
      is_active = true;
      has_ext_code = true;
      released_at = none;
    }
    ∷ record {
      session_id = 8;
      role = side_b;
      number_id = 1;
      party_e164_enc = nonce ++ 0 ∷ carol;
      party_hash = carol;
      is_active = true;
      has_ext_code = true;
      released_at = none;
    }
    ∷ []

abbrev promoted_first : Session
promoted_first = record born { ext_code = some (codes "01") }

abbrev second_world : World shelf
second_world = record {
  db = record empty_db {
    sessions = promoted_first ∷ second ∷ [];
    parties = map coded_party born_db.parties ++ second_parties;
  };
  cache = [];
}

abbrev second_created : CreatedSession
second_created = record { session = second; allocation = shared }

created_second :
    create_session counting plain_settings later second_request shelf ascii first_world
    ≡ ok (second_created, second_world, 2)
unfolding create_session create_in_db normalize_e164 text_eq sort check_ttl ttl_or_default
    check_max_calls allocate_number exclusive_number is_candidate flush party_hash encrypt_e164
    allocate_with_extension_code promote_conflicting_sessions sessions_to_promote fresh_code
    generate_ext_code find_number find_session update_session mem lookup_key invalidate_number glob
    holds extension_candidates lock_number active_ext_codes
created_second = refl

keyed : IsKeyed 8 born_db
unfolding find_number
keyed = record {
  by_id = (refl, tt);
  by_e164 = ((λ e. refl, tt), tt);
  same_number = ((λ e. refl, (λ e. refl, tt)), tt);
  fresh_session = (refl, tt);
  fresh_party = (refl, (refl, tt));
}

normal_carol : normalize_e164 ascii none carol ≡ ok carol
unfolding normalize_e164
normal_carol = refl

alice_apart : party_hash counting alice [] ≢ party_hash counting carol []
unfolding party_hash text_eq
alice_apart e =
    let same : text_eq alice carol ≡ true =
      subst (λ t. text_eq alice t ≡ true) e (text_eq_refl alice) in
    cc same

abbrev to_carol : Candidate
to_carol = record {
  session_id = 8;
  ext_code = some (codes "00");
  callee_e164 = carol;
  direction = a2b;
  max_calls = none;
  expires_at = some 60_000_150;
  trace_id = none;
}

abbrev to_bob : Candidate
to_bob = record to_carol {
  session_id = 7;
  ext_code = some (codes "01");
  callee_e164 = codes "+77017654321";
  expires_at = some 60_000_100;
}

abbrev to_alice : Candidate
to_alice = record to_carol { callee_e164 = alice; direction = b2a }

alices_calls :
    load_candidates counting plain_settings second_world.db
      (codes "+77000000001")
      (party_hash counting alice [])
      200
    ≡ ok (to_carol ∷ to_bob ∷ [])
unfolding load_candidates party_hash sort find_number text_eq decrypt_e164
alices_calls = refl

carols_calls :
    load_candidates counting plain_settings second_world.db
      (codes "+77000000001")
      (party_hash counting carol [])
      200
    ≡ ok (to_alice ∷ [])
unfolding load_candidates party_hash sort find_number text_eq decrypt_e164
carols_calls = refl

shared_session_answers_example :
    Answers shelf shelf-IsLawful shelf-IsUp counting plain_settings later second_request
      counting-IsSound counting-IsBelow alice carol refl refl alice_apart ascii second_world
      second_created
      (codes "00")
      200
      nonce
      (codes "8 700 000 00 01")
      alice
      side_a
      alice
      carol
    × Answers shelf shelf-IsLawful shelf-IsUp counting plain_settings later second_request
        counting-IsSound counting-IsBelow alice carol refl refl alice_apart ascii second_world
        second_created
        (codes "00")
        200
        nonce
        (codes "8 700 000 00 01")
        carol
        side_b
        carol
        alice
shared_session_answers_example =
    shared_session_answers shelf shelf-IsLawful shelf-IsUp counting plain_settings later
      second_request counting-IsSound counting-IsBelow alice carol refl refl alice_apart ascii
      first_world second_world second_created (codes "00") 2 200 nonce (codes "8 700 000 00 01")
      alice carol (to_carol ∷ to_bob ∷ []) (to_alice ∷ []) normal_alice normal_carol created_second
      refl keyed (omega arith) (omega arith) named normal_alice normal_carol alices_calls
      carols_calls

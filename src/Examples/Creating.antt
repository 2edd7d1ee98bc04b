-- ===== src/Examples/Creating.antt =====
-- Trials of the theorems on allocation, on the creation of sessions and on the pool.
use number_masking_service.Prelude.{
  ◌≡◌, ◌≢◌, ◌⊎◌, refl, none, some, List, [], ◌∷◌, Text, codes, text_eq, text_eq_refl, subst, map,
  ◌++◌, true, false,
}
use number_masking_service.Prelude.Sorts.{sort}
use number_masking_service.Errors.{ok}
use number_masking_service.Unicode.{ascii}
use number_masking_service.Settings.{always, never}
use number_masking_service.Crypto.{party_hash, generate_ext_code, encrypt_e164}
use number_masking_service.Phone.{normalize_e164}
use number_masking_service.Db.{
  Db, Session, SessionParty, active, side_a, side_b, find_number, flush, update_session,
}
use number_masking_service.Allocation.{
  mem, Promoted, allocate_number, exclusive_number, is_candidate, take_free,
  promote_conflicting_sessions, sessions_to_promote, fresh_code,
}
use number_masking_service.Allocation.Extension.{IsExclusive, IsShared, allocate_number_cases}
use number_masking_service.Allocation.Promotion.{Reachable, promotion_complete}
use number_masking_service.Lookup.Added.{IsKeyed}
use number_masking_service.Sessions.{create_in_db, check_ttl, ttl_or_default, check_max_calls}
use number_masking_service.Examples.{
  toy, plain_settings, pool_number, empty_db, alice, bob, nonce, request, surroundings, alone,
}

abbrev alices : List Text
alices = alice ∷ bob ∷ []

allocated :
    allocate_number toy plain_settings alices (λ i. false) 100 true empty_db 0
    ≡ ok (take_free pool_number empty_db 0)
unfolding allocate_number sort exclusive_number is_candidate
allocated = refl

allocate_number_cases_example :
    ((plain_settings.ext_code_mode ≢ always)
      × IsExclusive toy plain_settings alices
          (λ i. false)
          100
          empty_db
          0
          (take_free pool_number empty_db 0))
    ⊎ ((plain_settings.ext_code_mode ≢ never)
        × (true ≡ true)
        × IsShared toy plain_settings.ext_code_length alices empty_db
            (take_free pool_number empty_db 0))
allocate_number_cases_example =
    allocate_number_cases toy plain_settings alices (λ i. false) 100 true empty_db 0
      (take_free pool_number empty_db 0) allocated

abbrev pub born : Session
born = record {
  id = 7;
  number_id = 1;
  ext_code = none;
  status = active;
  external_id = none;
  max_calls = none;
  trace_id = none;
  created_at = 100;
  expires_at = 60_000_100;
  closed_at = none;
}

abbrev born_parties : List SessionParty
born_parties =
    record {
      session_id = 7;
      role = side_a;
      number_id = 1;
      party_e164_enc = nonce ++ 0 ∷ alice;
      party_hash = alice;
      is_active = true;
      has_ext_code = false;
      released_at = none;
    }
    ∷ record {
      session_id = 7;
      role = side_b;
      number_id = 1;
      party_e164_enc = nonce ++ 0 ∷ bob;
      party_hash = bob;
      is_active = true;
      has_ext_code = false;
      released_at = none;
    }
    ∷ []

abbrev pub born_db : Db
born_db = record empty_db { sessions = born ∷ []; parties = born_parties }

pub created :
    create_in_db toy plain_settings surroundings request ascii empty_db
    ≡ ok (record { session = born; allocation = alone }, born_db, 0)
unfolding create_in_db normalize_e164 text_eq sort check_ttl ttl_or_default check_max_calls
    allocate_number exclusive_number is_candidate flush party_hash encrypt_e164
created = refl

pub apart : party_hash toy alice [] ≢ party_hash toy bob []
unfolding party_hash text_eq
apart e =
    let same : text_eq alice bob ≡ true =
      subst (λ t. text_eq alice t ≡ true) e (text_eq_refl alice) in
    cc same

pub empty-IsKeyed : IsKeyed 7 empty_db
unfolding find_number
empty-IsKeyed = record {
  by_id = (refl, tt);
  by_e164 = ((λ e. refl, tt), tt);
  same_number = tt;
  fresh_session = tt;
  fresh_party = tt;
}

pub normal_alice : normalize_e164 ascii none alice ≡ ok alice
unfolding normalize_e164
normal_alice = refl

pub normal_bob : normalize_e164 ascii none bob ≡ ok bob
unfolding normalize_e164
normal_bob = refl

-- The session with the PIN that its promotion gives it.
abbrev promoted_session : Session
promoted_session = record born { ext_code = some (codes "00") }

abbrev promotion : Promoted
promotion = record {
  ids = some (7 ∷ []);
  db = record empty_db {
    sessions = promoted_session ∷ [];
    parties = map (λ (p : SessionParty). record p { has_ext_code = true }) born_parties;
  };
  draw = 1;
}

promoted : promote_conflicting_sessions toy 2 1 alices [] born_db 0 ≡ ok promotion
unfolding promote_conflicting_sessions text_eq generate_ext_code flush update_session
    sessions_to_promote fresh_code
promoted = refl

promotion_complete_example : Reachable promotion.db 1 alices
promotion_complete_example =
    promotion_complete 1 alices toy 2 [] (7 ∷ []) born_db 0 promotion promoted refl

drawn : fresh_code toy (codes "00" ∷ []) 2 20 0 ≡ ok (some (codes "01"), 2)
unfolding fresh_code generate_ext_code text_eq mem
drawn = refl

-- ===== src/Examples/Closing.antt =====
-- Trials of closing and expiring sessions.
use number_masking_service.Prelude.{◌≡◌, refl, none, some, [], ◌∷◌, true, false}
use number_masking_service.Errors.{ok}
use number_masking_service.Db.{
  Db, Session, SessionParty, active, closed, expired, side_a, find_session, find_number,
  update_session, flush,
}
use number_masking_service.Prelude.Sorts.{sort}
use number_masking_service.Lifecycle.{
  due_sessions, expire_each, release_each, expire_in_db, end_session, close_in_db,
  mark_number_released,
}
use number_masking_service.Lifecycle.Ending.{close_in_db_twice}
use number_masking_service.Examples.{empty_db, pool_number, alice, nonce}

abbrev pub open_session : Session
open_session = record {
  id = 7;
  number_id = 1;
  ext_code = none;
  status = active;
  external_id = none;
  max_calls = none;
  trace_id = none;
  created_at = 100;
  expires_at = 500;
  closed_at = none;
}

abbrev open_party : SessionParty
open_party = record {
  session_id = 7;
  role = side_a;
  number_id = 1;
  party_e164_enc = nonce;
  party_hash = alice;
  is_active = true;
  has_ext_code = false;
  released_at = none;
}

abbrev pub open_db : Db
open_db = record empty_db { sessions = open_session ∷ []; parties = open_party ∷ [] }

abbrev pub over_session : Session
over_session = record open_session { status = closed; closed_at = some 300 }

abbrev pub over_db : Db
over_db = record empty_db {
  numbers = record pool_number { released_at = some 300 } ∷ [];
  sessions = over_session ∷ [];
  parties = record open_party { is_active = false; released_at = some 300 } ∷ [];
}

pub closing : close_in_db 300 7 closed open_db ≡ ok (over_session, over_db)
unfolding close_in_db flush update_session find_session mark_number_released find_number
closing = refl

pub found : find_session open_db 7 ≡ some open_session
unfolding find_session
found = refl

close_in_db_twice_example : close_in_db 400 7 expired over_db ≡ ok (over_session, over_db)
close_in_db_twice_example =
    close_in_db_twice 300 400 7 closed expired open_db over_db over_session refl closing

-- The session as the sweep leaves it.
abbrev swept_session : Session
swept_session = record open_session { status = expired; closed_at = some 600 }

abbrev swept_db : Db
swept_db = record empty_db {
  numbers = record pool_number { released_at = some 600 } ∷ [];
  sessions = swept_session ∷ [];
  parties = record open_party { is_active = false; released_at = some 600 } ∷ [];
}

swept : expire_in_db 600 500 open_db ≡ ok (swept_session ∷ [], swept_db)
unfolding expire_in_db sort flush update_session find_session mark_number_released find_number
    due_sessions end_session expire_each release_each
swept = refl

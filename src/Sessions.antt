-- ===== src/Sessions.antt =====
-- app/services/sessions.py: the life of a session. What a function reads from outside (clock,
-- `uuid4`, `os.urandom`) is an argument. A `World` is what a service function works on: the tables as
-- its own transaction sees them, and the lookup cache. What it does to the cache others see at once;
-- what it does to the tables they see when its caller has committed (`db_session`,
-- `session_scope`), and until then they see the tables from before.
pub mod Creation
pub mod Routes
pub mod Connected
pub mod Shared
pub mod Answered
use number_masking_service.Prelude.{
  ℕ, zero, suc, ◌+◌, ◌*◌, Option, none, some, List, [], ◌∷◌, ◌++◌, Bool, true, false, not, ◌&&◌,
  Text, text_eq, is_some, count, filter, length, take, any, ltb, leb, ◌==◌, if◌then◌else◌, codes,
}
use number_masking_service.Prelude.Sorts.{sort}
use number_masking_service.Errors.{
  Result, ok, err, Error, validation_error, session_not_found_error, session_not_active_error,
  allocation_conflict, integrity_error, ◌>>=◌, ◌>>◌,
}
use number_masking_service.Unicode.{Unicode}
use number_masking_service.Settings.{Settings, ℤ, pos, negsuc, second, day}
use number_masking_service.Phone.{normalize_e164}
use number_masking_service.Crypto.{Primitives, party_hash, encrypt_e164}
use number_masking_service.Journal.{Journal, Call, CallStatus}
use number_masking_service.Db.{
  Db, Session, SessionParty, Role, active, side_a, side_b, is_active, find_session, find_number,
  update_session, flush,
}
use number_masking_service.Allocation.{Allocation, Allocated, allocate_number, active_on}
use number_masking_service.Cache.{Redis, invalidate_number}

pub record World (r : Redis) : Type 0 where
  pub db : Db
  pub cache : r.Store

-- What others see of an operation that turned the first world into the second, until its transaction
-- commits.
unfoldable pub before_commit : (r : Redis) → World r → World r → World r
before_commit r w w' = record w' { db = w.db }

-- What `create_session` reads from outside.
pub record Surroundings : Type 0 where
  -- `now()` of the transaction, and the three readings of the clock
  pub sql_now : ℕ
  pub created_at : ℕ
  pub expiry_from : ℕ
  pub cache_now : ℕ
  pub uuid : ℕ
  pub nonce_a : Text
  pub nonce_b : Text
  pub trace_id : Option Text
  pub draw : ℕ
  -- the number rows that other transactions hold
  pub locked : ℕ → Bool

pub record SessionCreate : Type 0 where
  pub party_a : Text
  pub party_b : Text
  pub ttl_seconds : Option ℤ
  pub external_id : Option Text
  pub max_calls : Option ℤ
  pub allow_extension_code : Bool

-- `ttl_seconds or settings.default_ttl_seconds`.
unfoldable pub ttl_or_default : Settings → Option ℤ → ℤ
ttl_or_default settings none = settings.default_ttl_seconds
ttl_or_default settings (some (pos zero)) = settings.default_ttl_seconds
ttl_or_default settings (some (pos (suc n))) = pos (suc n)
ttl_or_default settings (some (negsuc n)) = negsuc n

at_most : ℕ → ℤ → Bool
at_most n (pos m) = leb n m
at_most n (negsuc m) = false

-- `ttl <= 0 or ttl > max` is refused; what is accepted is a positive number.
unfoldable pub check_ttl : ℤ → ℤ → Result ℕ
unfolding at_most
check_ttl limit (pos zero) = err validation_error
check_ttl limit (pos (suc n)) = if at_most (suc n) limit then ok (suc n) else err validation_error
check_ttl limit (negsuc n) = err validation_error

-- `max_calls is not None and max_calls <= 0` is refused.
unfoldable pub check_max_calls : Option ℤ → Result (Option ℕ)
check_max_calls none = ok none
check_max_calls (some (pos zero)) = err validation_error
check_max_calls (some (pos (suc n))) = ok (some (suc n))
check_max_calls (some (negsuc n)) = err validation_error

unfoldable pub check_different : Text → Text → Result (Unit {0})
check_different a b = if text_eq a b then err validation_error else ok tt

-- The handler of `IntegrityError`.
unfoldable pub conflict {ℓ} : {A : Type ℓ} → Result A → Result A
conflict (ok a) = ok a
conflict (err e) = err allocation_conflict

pub record CreatedSession : Type 0 where
  pub session : Session
  pub allocation : Allocation

module _ (c : Primitives) (settings : Settings) (env : Surroundings) (req : SessionCreate) where
  unfoldable pub new_session : Allocation → ℕ → Option ℕ → Session
  new_session a ttl max_calls = record {
    id = env.uuid;
    number_id = a.number_id;
    ext_code = a.ext_code;
    status = active;
    external_id = req.external_id;
    max_calls = max_calls;
    trace_id = env.trace_id;
    created_at = env.created_at;
    expires_at = env.expiry_from + ttl * second;
    closed_at = none;
  }

  unfoldable pub new_party : Role → Text → Text → Allocation → SessionParty
  new_party role nonce number a = record {
    session_id = env.uuid;
    role = role;
    number_id = a.number_id;
    party_e164_enc = encrypt_e164 c nonce number settings.encryption_key;
    party_hash = party_hash c number settings.party_hash_secret;
    is_active = true;
    has_ext_code = is_some a.ext_code;
    released_at = none;
  }

  unfoldable pub new_parties : Allocation → Text → Text → List SessionParty
  unfolding new_party
  new_parties a number_a number_b =
      new_party side_a env.nonce_a number_a a ∷ new_party side_b env.nonce_b number_b a ∷ []

  -- `db.add(session)`, with its parties.
  unfoldable pub insert_session : Db → Session → List SessionParty → Db
  insert_session db s ps = record db {
    sessions = db.sessions ++ s ∷ [];
    parties = db.parties ++ ps;
  }

  unfoldable pub hashes : Text → Text → List Text
  hashes number_a number_b =
      party_hash c number_a settings.party_hash_secret
      ∷ party_hash c number_b settings.party_hash_secret
      ∷ []

  -- `create_session`, with the tables and the random source that it leaves.
  unfoldable pub create_in_db : Unicode → Db → Result (CreatedSession × Db × ℕ)
  unfolding check_different conflict new_session new_parties insert_session hashes
  create_in_db u db = do
    number_a ← normalize_e164 u none req.party_a
    number_b ← normalize_e164 u none req.party_b
    check_different number_a number_b
    ttl ← check_ttl settings.max_ttl_seconds (ttl_or_default settings req.ttl_seconds)
    max_calls ← check_max_calls req.max_calls
    got ←
        allocate_number c settings (hashes number_a number_b) env.locked env.sql_now
          req.allow_extension_code db env.draw
    let session = new_session got.allocation ttl max_calls
    db' ←
        conflict
          (flush (insert_session got.db session (new_parties got.allocation number_a number_b)))
    ok (record { session = session; allocation = got.allocation }, db', got.draw)

  unfoldable pub create_session :
      (r : Redis) → Unicode → World r → Result (CreatedSession × World r × ℕ)
  unfolding create_in_db
  create_session r u w = do
    (created, db, draw) ← create_in_db u w.db
    ok (
      created,
      record {
        db = db;
        cache = invalidate_number r w.cache env.cache_now created.allocation.proxy_e164;
      },
      draw,
    )

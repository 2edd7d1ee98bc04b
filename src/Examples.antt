-- ===== src/Examples.antt =====
-- Concrete tables, settings and stand-ins for the outside world, at which the theorems are tried.
pub mod Journals
pub mod Phones
pub mod Closing
pub mod Calls
pub mod Creating
pub mod Handling
pub mod Ending
pub mod Clients
pub mod Reaching
pub mod Sharing
pub mod Racing
pub mod Logs
pub mod Requests
pub mod Metering
pub mod Keys
use number_masking_service.Prelude.{
  ℕ, zero, suc, ◌+◌, ◌<◌, refl, Option, none, some, List, [], ◌∷◌, Text, codes, true, false, arith,
}
use number_masking_service.Settings.{Settings, CooldownScope, pos, auto}
use number_masking_service.Crypto.{Primitives}
use number_masking_service.Crypto.Sealing.{IsSound}
use number_masking_service.Db.{Db, Number, Session, enabled, active}
use number_masking_service.Cache.{Redis}
use number_masking_service.Sessions.{SessionCreate, Surroundings}
use number_masking_service.Allocation.{Allocation, exclusive}

abbrev toy_unseal : Text → Option Text
toy_unseal [] = none
toy_unseal (x ∷ xs) = some xs

abbrev first_of : Text → Option ℕ
first_of [] = none
first_of (n ∷ t) = some n

-- Primitives that hide nothing, and so compute.
abbrev pub toy : Primitives
toy = record {
  hmac_hex = λ secret m. m;
  seal = λ key nonce t. 0 ∷ t;
  unseal = λ key nonce t. toy_unseal t;
  encode = λ t. t;
  decode = λ t. some t;
  randbelow = λ draw n. draw;
  b64encode = λ t. t;
  b64decode = λ t. some t;
  uuid_text = λ n. n ∷ [];
  read_uuid = λ t. first_of t;
  isoformat = λ n. n ∷ [];
  fromisoformat = λ t. first_of t;
}

pub toy-IsSound : IsSound toy
toy-IsSound = record {
  unseal-seal = λ key nonce t. refl;
  tagged = λ key nonce t. omega arith;
  decode-encode = λ t. refl;
}

-- A server that holds nothing.
abbrev pub empty_redis : Redis
empty_redis = record {
  Store = Unit;
  get = λ s now key. some none;
  set = λ s now key value ttl. none;
  delete = λ s keys. none;
  scan = λ s now pattern. none;
  hit = λ s now key seconds. none;
  dumps = λ p. [];
  loads = λ t. none;
}

abbrev pub plain_settings : Settings
plain_settings = record {
  default_ttl_seconds = pos 3600;
  max_ttl_seconds = pos 86400;
  number_cooldown_hours = 24;
  cooldown_scope = CooldownScope.number;
  ari_app = codes "masking";
  endpoint_template = codes "PJSIP/{digits}";
  originate_timeout = 30;
  ext_code_mode = auto;
  ext_code_length = 2;
  ext_code_max_per_number = 5;
  dtmf_max_attempts = 3;
  call_retention_days = 90;
  closed_session_retention_days = 90;
  party_hash_secret = [];
  encryption_key = [];
  webhook_url = [];
  webhook_secret = [];
  webhook_max_attempts = 3;
  sound_expired = codes "expired";
  sound_unknown = codes "unknown";
  sound_enter_code = codes "enter";
  sound_wrong_code = codes "wrong";
  sound_error = codes "error";
}

abbrev pub pool_number : Number
pool_number = record {
  id = 1;
  e164 = codes "+77000000001";
  status = enabled;
  provider = none;
  released_at = none;
  created_at = 0;
}

-- A pool of one number, and no session.
abbrev pub empty_db : Db
empty_db = record {
  numbers = pool_number ∷ [];
  next_number_id = 2;
  sessions = [];
  parties = [];
  calls = record { rows = []; next_id = 1 };
}

abbrev pub alice : Text
alice = codes "+77011234567"

abbrev pub bob : Text
bob = codes "+77017654321"

abbrev pub nonce : Text
nonce = 1 ∷ 2 ∷ 3 ∷ 4 ∷ 5 ∷ 6 ∷ 7 ∷ 8 ∷ 9 ∷ 10 ∷ 11 ∷ 12 ∷ []

abbrev pub request : SessionCreate
request = record {
  party_a = alice;
  party_b = bob;
  ttl_seconds = some (pos 60);
  external_id = none;
  max_calls = none;
  allow_extension_code = true;
}

abbrev pub surroundings : Surroundings
surroundings = record {
  sql_now = 100;
  created_at = 100;
  expiry_from = 100;
  cache_now = 100;
  uuid = 7;
  nonce_a = nonce;
  nonce_b = nonce;
  trace_id = none;
  draw = 0;
  locked = λ i. false;
}

-- The allocation of the pool's number to the two parties alone.
abbrev pub alone : Allocation
alone = record {
  number_id = 1;
  proxy_e164 = codes "+77000000001";
  ext_code = none;
  mode = exclusive;
  promoted_session_ids = [];
}

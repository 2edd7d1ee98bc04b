-- ===== src/Routing.antt =====
-- app/services/routing.py: what to do with a call that arrived on a proxy number. Every reading of
-- the clock is the one argument `now`; the log is not modelled.
pub mod Verdict
pub mod Cached
pub mod Fresh
pub mod Asked
pub mod Entries
use mathlib.Core.Option
use number_masking_service.Prelude.{
  ℕ, ◌-◌, ◌/◌, min, Option, none, some, List, [], ◌∷◌, Bool, true, false, Text, text_eq, codes,
  is_empty, or_else, filter, leb, ◌==◌, if◌then◌else◌,
}
use number_masking_service.Errors.{Result, ok, err, value_error, ◌>>=◌}
use number_masking_service.Unicode.{Unicode}
use number_masking_service.Settings.{Settings, second}
use number_masking_service.Phone.{normalize_e164}
use number_masking_service.Crypto.{Primitives, party_hash, encrypt_e164, decrypt_e164}
use number_masking_service.Journal.{Direction}
use number_masking_service.Db.{Db}
use number_masking_service.Cache.{
  Redis, Payload, cache_get_json, cache_set_json, lookup_key, lookup_ttl_seconds,
  negative_ttl_seconds,
}
use number_masking_service.Lookup.{Candidate, has_code, load_candidates, had_session}

pub data Action : Type 0 where
  connect ask_code reject : Action

pub record Decision : Type 0 where
  pub action : Action
  pub caller_hash : Text
  pub proxy_e164 : Text
  pub candidate : Option Candidate
  pub candidates : List Candidate
  pub reject_status : Text
  pub prompt : Option Text
  pub session_id : Option ℕ

unfoldable pub rejection : Text → Text → Text → Text → Decision
rejection proxy caller_hash status prompt = record {
  action = reject;
  caller_hash = caller_hash;
  proxy_e164 = proxy;
  candidate = none;
  candidates = [];
  reject_status = status;
  prompt = some prompt;
  session_id = none;
}

unfoldable pub connection : Text → Text → Candidate → Decision
connection proxy caller_hash candidate = record {
  action = connect;
  caller_hash = caller_hash;
  proxy_e164 = proxy;
  candidate = some candidate;
  candidates = [];
  reject_status = codes "unknown_caller";
  prompt = none;
  session_id = some candidate.session_id;
}

unfoldable pub question : Text → Text → List Candidate → Text → Decision
question proxy caller_hash candidates prompt = record {
  action = ask_code;
  caller_hash = caller_hash;
  proxy_e164 = proxy;
  candidate = none;
  candidates = candidates;
  reject_status = codes "unknown_caller";
  prompt = some prompt;
  session_id = none;
}

abbrev pub miss_status : Bool → Text
miss_status true = codes "expired"
miss_status false = codes "unknown_caller"

abbrev pub miss_prompt : Settings → Bool → Text
miss_prompt settings true = settings.sound_expired
miss_prompt settings false = settings.sound_unknown

unfoldable pub miss_payload : Text → Payload
miss_payload status = record {
  miss = true;
  status = some status;
  session_id = none;
  direction = none;
  callee_enc = none;
  ext_code = none;
  trace_id = none;
  expires_at = none;
}

-- `nonce` is the randomness of the encryption.
unfoldable pub route_payload : Primitives → Settings → Text → Candidate → Payload
route_payload c settings nonce candidate = record {
  miss = false;
  status = none;
  session_id = some (c.uuid_text candidate.session_id);
  direction = some candidate.direction;
  callee_enc =
      some (c.b64encode (encrypt_e164 c nonce candidate.callee_e164 settings.encryption_key));
  ext_code = candidate.ext_code;
  trace_id = candidate.trace_id;
  expires_at = Option.map c.isoformat candidate.expires_at;
}

-- The seconds for which a route may be cached; 0 where it must not be.
unfoldable pub route_ttl : Candidate → ℕ → ℕ
route_ttl candidate now = elim candidate.max_calls [
  | some _ ↦ 0
  | none ↦ elim candidate.expires_at [
    | none ↦ lookup_ttl_seconds
    | some e ↦ min ((e - now) / second) lookup_ttl_seconds
  ]
]

-- A text of a cache entry that is empty counts as missing.
unfoldable pub non_empty : Option Text → Option Text
non_empty none = none
non_empty (some t) = if is_empty t then none else some t

unfoldable pub cached_candidate : Payload → Option ℕ → Text → ℕ → Direction → Candidate
unfolding non_empty
cached_candidate p expires_at callee session_id direction = record {
  session_id = session_id;
  ext_code = non_empty p.ext_code;
  callee_e164 = callee;
  direction = direction;
  max_calls = none;
  expires_at = expires_at;
  trace_id = non_empty p.trace_id;
}

unfoldable pub is_stale : Option ℕ → ℕ → Bool
is_stale none now = false
is_stale (some e) now = leb e now

-- `d[key]`: a missing key raises, and the handler below makes the lookup fall back to SQL.
unfoldable pub item {ℓ} : {A : Type ℓ} → Option A → Result A
item none = err value_error
item (some a) = ok a

-- What a text is read as; a text that is none raises.
unfoldable pub parsed {ℓ} : {A : Type ℓ} → Option A → Result A
parsed none = err value_error
parsed (some a) = ok a

-- The expiry of an entry; an empty text counts as missing.
unfoldable pub cached_expiry : Primitives → Option Text → Result (Option ℕ)
unfolding parsed
cached_expiry c none = ok none
cached_expiry c (some t) =
    if is_empty t then ok none else do e ← parsed (c.fromisoformat t); ok (some e)

unfoldable pub cached_route :
    Primitives → Settings → Payload → Option ℕ → Text → Text → Result Decision
unfolding item parsed cached_candidate connection
cached_route c settings p expires_at proxy caller_hash = do
  text ← item p.callee_enc
  blob ← parsed (c.b64decode text)
  callee ← decrypt_e164 c blob settings.encryption_key
  id ← item p.session_id
  session_id ← parsed (c.read_uuid id)
  direction ← item p.direction
  ok (connection proxy caller_hash (cached_candidate p expires_at callee session_id direction))

unfoldable pub cached_miss : Settings → Payload → Text → Text → Decision
unfolding rejection
cached_miss settings p proxy caller_hash =
    let status = or_else p.status (codes "unknown_caller") in
    rejection proxy caller_hash status (miss_prompt settings (text_eq status (codes "expired")))

except_none {ℓ} : {A : Type ℓ} → Result A → Option A
except_none (ok a) = some a
except_none (err e) = none

live_decision :
    Primitives → Settings → Payload → Text → Text → ℕ → Result (Option ℕ) → Option Decision
unfolding except_none is_stale cached_route
live_decision c settings p proxy caller_hash now (err e) = none
live_decision c settings p proxy caller_hash now (ok expires_at) =
    if is_stale expires_at now
    then none
    else except_none (cached_route c settings p expires_at proxy caller_hash)

-- `_decision_from_cache`.
unfoldable pub decision_from_cache :
    Primitives → Settings → Payload → Text → Text → ℕ → Option Decision
unfolding cached_miss cached_expiry live_decision
decision_from_cache c settings p proxy caller_hash now =
    if p.miss
    then some (cached_miss settings p proxy caller_hash)
    else live_decision c settings p proxy caller_hash now (cached_expiry c p.expires_at)

-- More than one candidate: those with a PIN are asked for.
unfoldable pub ask : Settings → Text → Text → List Candidate → Decision
unfolding rejection question
ask settings proxy caller_hash [] =
    rejection proxy caller_hash (codes "failed") settings.sound_error
ask settings proxy caller_hash (c ∷ cs) =
    question proxy caller_hash (c ∷ cs) settings.sound_enter_code

-- The verdict on the candidates; an empty list is `_reject_without_session`.
unfoldable pub decide : Settings → Db → Text → Text → List Candidate → Decision
unfolding rejection connection ask
decide settings db proxy caller_hash [] =
    let had = had_session db proxy caller_hash in
    rejection proxy caller_hash (miss_status had) (miss_prompt settings had)
decide settings db proxy caller_hash (candidate ∷ []) = connection proxy caller_hash candidate
decide settings db proxy caller_hash (candidate ∷ other ∷ more) =
    ask settings proxy caller_hash (filter has_code (candidate ∷ other ∷ more))

module _ (r : Redis) (c : Primitives) (u : Unicode) (settings : Settings) where
  -- `_cache_single` and the write of `_reject_without_session`.
  unfoldable pub remember : r.Store → Db → Text → Text → ℕ → Text → List Candidate → r.Store
  unfolding miss_payload route_payload route_ttl
  remember s db proxy caller_hash now nonce [] =
      cache_set_json r s now (lookup_key proxy caller_hash)
        (miss_payload (miss_status (had_session db proxy caller_hash))) negative_ttl_seconds
  remember s db proxy caller_hash now nonce (candidate ∷ []) =
      if route_ttl candidate now == 0
      then s
      else cache_set_json r s now (lookup_key proxy caller_hash)
          (route_payload c settings nonce candidate) (route_ttl candidate now)
  remember s db proxy caller_hash now nonce (candidate ∷ other ∷ more) = s

  unfoldable pub resolve_from_db :
      r.Store → Db → Text → Text → ℕ → Text → Result (Decision × r.Store)
  resolve_from_db s db proxy caller_hash now nonce = do
    candidates ← load_candidates c settings db proxy caller_hash now
    ok (
      decide settings db proxy caller_hash candidates,
      remember s db proxy caller_hash now nonce candidates,
    )

  cached : r.Store → Text → Text → ℕ → Option Decision
  cached s proxy caller_hash now = elim (cache_get_json r s now (lookup_key proxy caller_hash)) [
    | none ↦ none
    | some p ↦ decision_from_cache c settings p proxy caller_hash now
  ]

  resolve_known : r.Store → Db → Text → Text → ℕ → Text → Result (Decision × r.Store)
  unfolding cached
  resolve_known s db proxy caller_hash now nonce = elim (cached s proxy caller_hash now) [
    | some d ↦ ok (d, s)
    | none ↦ resolve_from_db s db proxy caller_hash now nonce
  ]

  or_raw : Text → Result Text → Text
  or_raw raw (ok t) = t
  or_raw raw (err e) = raw

  -- `resolve_call`.
  unfoldable pub resolve_call : r.Store → Db → Text → Text → ℕ → Text → Result (Decision × r.Store)
  unfolding resolve_known or_raw
  resolve_call s db proxy_e164 caller now nonce =
      let proxy = or_raw proxy_e164 (normalize_e164 u none proxy_e164) in
      elim (normalize_e164 u none caller) [
        | err e ↦ ok (rejection proxy [] (codes "unknown_caller") settings.sound_unknown, s)
        | ok caller_e164 ↦
            resolve_known s db proxy (party_hash c caller_e164 settings.party_hash_secret) now nonce
      ]

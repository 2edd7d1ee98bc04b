-- ===== src/Cache.antt =====
-- app/db/cache.py: the lookup cache and the rate limit. The Redis server and the JSON codec are
-- parameters; `none` from an operation of the server is an exception, which every function here
-- catches.
pub mod Dropping
use number_masking_service.Prelude.{
  ℕ, Option, none, some, List, [], ◌∷◌, ◌++◌, Bool, true, Text, codes, leb,
}
use number_masking_service.Journal.{Direction}
use number_masking_service.Crypto.{decimal}

-- A JSON object of the lookup cache; a key that is missing or null is `none`.
pub record Payload : Type 0 where
  pub miss : Bool
  pub status : Option Text
  pub session_id : Option Text
  pub direction : Option Direction
  pub callee_enc : Option Text
  pub ext_code : Option Text
  pub trace_id : Option Text
  pub expires_at : Option Text

pub record Redis : Type 1 where
  pub Store : Type 0
  -- the value of a key at a time
  pub get : Store → ℕ → Text → Option (Option Text)
  -- SET key value EX ttl, at a time
  pub set : Store → ℕ → Text → Text → ℕ → Option Store
  pub delete : Store → List Text → Option Store
  -- all keys that SCAN returns for a pattern
  pub scan : Store → ℕ → Text → Option (List Text)
  -- the pipeline INCR key, EXPIRE key seconds NX, at a time
  pub hit : Store → ℕ → Text → ℕ → Option (ℕ × Store)
  -- `json.dumps` and `json.loads`
  pub dumps : Payload → Text
  pub loads : Text → Option Payload

abbrev pub lookup_ttl_seconds : ℕ
lookup_ttl_seconds = 300

abbrev pub negative_ttl_seconds : ℕ
negative_ttl_seconds = 15

unfoldable pub lookup_prefix : Text → Text
lookup_prefix proxy = codes "lookup:" ++ (proxy ++ codes ":")

unfoldable pub lookup_key : Text → Text → Text
unfolding lookup_prefix
lookup_key proxy caller_hash = lookup_prefix proxy ++ caller_hash

module _ (r : Redis) where
  open r use {Store}

  decode : Option (Option Text) → Option Payload
  decode none = none
  decode (some none) = none
  decode (some (some raw)) = r.loads raw

  unfoldable pub cache_get_json : Store → ℕ → Text → Option Payload
  unfolding decode
  cache_get_json s now key = decode (r.get s now key)

  -- What a failed write leaves.
  abbrev pub or_same : Store → Option Store → Store
  or_same s none = s
  or_same s (some s') = s'

  unfoldable pub cache_set_json : Store → ℕ → Text → Payload → ℕ → Store
  cache_set_json s now key value ttl = or_same s (r.set s now key (r.dumps value) ttl)

  unfoldable pub cache_delete : Store → List Text → Store
  cache_delete s [] = s
  cache_delete s (k ∷ ks) = or_same s (r.delete s (k ∷ ks))

  -- The loop of `invalidate_number`: an exception ends it, and what was deleted stays deleted.
  unfoldable pub delete_each : Store → List Text → Store
  delete_each s [] = s
  delete_each s (k ∷ ks) = elim (r.delete s (k ∷ [])) [ none ↦ s | some s' ↦ delete_each s' ks ]

  unfoldable pub invalidate_number : Store → ℕ → Text → Store
  unfolding delete_each lookup_prefix
  invalidate_number s now proxy = elim (r.scan s now (lookup_prefix proxy ++ codes "*")) [
    | none ↦ s
    | some keys ↦ delete_each s keys
  ]

  unfoldable pub rate_limit_key : Text → ℕ → Text
  rate_limit_key api_key_id window =
      codes "ratelimit:" ++ (api_key_id ++ (codes ":" ++ decimal window))

  -- The verdict, the count and what the server holds afterwards.
  unfoldable pub rate_limit_hit : Store → ℕ → Text → ℕ → ℕ → Bool × ℕ × Store
  unfolding rate_limit_key
  rate_limit_hit s now api_key_id limit window =
      elim (r.hit s now (rate_limit_key api_key_id window) window) [
        | none ↦ (true, 0, s)
        | some (seen, s') ↦ (leb seen limit, seen, s')
      ]

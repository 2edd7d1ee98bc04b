-- ===== src/Api/Access.antt =====
-- app/api/deps.py: who is let in. The SHA-256 of a key, in hexadecimal digits, is a parameter.
use number_masking_service.Prelude.{
  ℕ, Option, none, some, List, [], ◌∷◌, Bool, true, false, not, ◌==◌, Text, is_empty, map, filter,
  take, if◌then◌else◌,
}
use number_masking_service.Errors.{Result, ok, err, unauthorized_error, rate_limited_error, ◌>>=◌}
use number_masking_service.Unicode.{Unicode}
use number_masking_service.Crypto.{constant_time_equals}
use number_masking_service.Phone.{strip}
use number_masking_service.Cache.{Redis, rate_limit_hit}

abbrev pub key_id_length : ℕ
key_id_length = 16

abbrev pub comma : ℕ
comma = 44

-- The first field of a text that is split at its commas, and the rest of them.
unfoldable pub split_first : Text → Text × List Text
split_first [] = ([], [])
split_first (c ∷ t) =
    let (field, fields) = split_first t in
    if c == comma then ([], field ∷ fields) else (c ∷ field, fields)

unfoldable pub split_commas : Text → List Text
unfolding split_first
split_commas t = let (field, fields) = split_first t in field ∷ fields

-- `api_key_set`.
unfoldable pub api_key_set : Unicode → Text → List Text
unfolding split_commas
api_key_set u api_keys = filter (λ k. not (is_empty k)) (map (strip u) (split_commas api_keys))

-- What the quota says, and the server afterwards, which also keeps a hit that is refused.
unfoldable pub admitted : {S : Type 0} → Text → Bool × ℕ × S → Result (Text × ℕ) × S
admitted id (true, count, s) = (ok (id, count), s)
admitted id (false, count, s) = (err rate_limited_error, s)

-- `any(constant_time_equals(...) for known in ...)`, in the order in which the set is run through.
unfoldable pub is_known : Text → List Text → Result Bool
is_known key [] = ok false
is_known key (known ∷ keys) =
    let rest = is_known key keys in
    constant_time_equals key known >>= λ same. if same then ok true else rest

-- `require_api_key`: the key's identifier and the count of its hits.
unfoldable pub require_api_key :
    (r : Redis) (sha256_hex : Text → Text) (keys : List Text) (limit : ℕ)
    → Option Text
    → r.Store
    → ℕ
    → ℕ
    → Result (Text × ℕ) × r.Store
unfolding admitted is_known
require_api_key r sha256_hex keys limit none s now window = (err unauthorized_error, s)
require_api_key r sha256_hex keys limit (some key) s now window =
    if is_empty key then (err unauthorized_error, s) else elim (is_known key keys) [
      | err e ↦ (err e, s)
      | ok known ↦
          if known
          then admitted (take key_id_length (sha256_hex key))
              (rate_limit_hit r s now (take key_id_length (sha256_hex key)) limit window)
          else (err unauthorized_error, s)
    ]

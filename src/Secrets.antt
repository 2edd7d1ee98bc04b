-- ===== src/Secrets.antt =====
-- app/core/config.py: the secrets of the configuration: the encryption key, the URL of the event
-- stream and the warnings about defaults. Base64, SHA-256 and UTF-8 (here: of the secret) are
-- parameters.
pub mod Generated
use number_masking_service.Prelude.{
  ℕ, String, Option, none, some, List, [], ◌∷◌, ◌++◌, Bool, true, false, not, ◌||◌, ◌==◌, Text,
  text_eq, codes, is_empty, length, any, drop, ltb, if◌then◌else◌,
}
use mathlib.Core.List.{reverse}
use number_masking_service.Errors.{Result, ok, err, value_error}
use number_masking_service.Unicode.{Unicode}
use number_masking_service.Phone.{strip, starts_with}
use number_masking_service.Api.Access.{api_key_set}

abbrev pub min_hash_secret_length : ℕ
min_hash_secret_length = 32

abbrev pub aes_key_bytes : ℕ
aes_key_bytes = 32

-- The settings that are secrets, as they are configured.
pub record Secrets : Type 0 where
  pub party_hash_secret : Text
  pub encryption_key : Text
  pub api_keys : Text
  pub ari_password : Text

-- What the standard library does to bytes; `none` is an exception.
pub record Codec : Type 0 where
  -- `base64.b64decode(raw, validate=True)` and `base64.b64encode`
  pub b64decode : Text → Option Text
  pub b64encode : Text → Text
  -- `hashlib.sha256(secret.encode()).digest()`
  pub sha256 : Text → Text

of_length : Option Text → Result Text
of_length none = err value_error
of_length (some key) = if length key == aes_key_bytes then ok key else err value_error

-- `encryption_key_bytes`.
unfoldable pub encryption_key_bytes : Unicode → Codec → Secrets → Result Text
unfolding of_length
encryption_key_bytes u codec secrets =
    let raw = strip u secrets.encryption_key in
    if is_empty raw
    then ok (codec.sha256 secrets.party_hash_secret)
    else of_length (codec.b64decode raw)

-- `needle in text`.
unfoldable pub contains : Text → Text → Bool
contains needle [] = is_empty needle
contains needle (c ∷ t) =
    let rest = contains needle t in if starts_with (c ∷ t) needle then true else rest

abbrev pub change_me : Text
change_me = codes "change-me"

unfoldable pub is_default_key : Text → Bool
unfolding contains
is_default_key key = contains change_me key || text_eq key (codes "dev-key-change-me")

problem_if : Bool → String → List Text
problem_if true text = codes text ∷ []
problem_if false text = []

-- `validate_production_secrets`.
unfoldable pub validate_production_secrets : Unicode → Secrets → List Text
unfolding problem_if is_default_key
validate_production_secrets u s =
    problem_if
      (contains change_me s.party_hash_secret
        || ltb (length s.party_hash_secret) min_hash_secret_length)
      "PARTY_HASH_SECRET is a default or shorter than 32 chars"
    ++ (problem_if (is_empty (strip u s.encryption_key) || contains change_me s.encryption_key)
          "ENCRYPTION_KEY is unset or a default value"
        ++ (problem_if (any (api_key_set u s.api_keys) is_default_key)
              "API_KEYS contains a default value"
            ++ problem_if (contains change_me s.ari_password) "ARI_PASSWORD is a default value"))

strip_slashes : Text → Text
strip_slashes [] = []
strip_slashes (c ∷ t) = let rest = strip_slashes t in if c == 47 then rest else c ∷ t

-- `text.split("://", 1)[1]`; a text without the mark raises.
unfoldable pub behind_scheme : Text → Option Text
behind_scheme [] = none
behind_scheme (c ∷ t) =
    let rest = behind_scheme t in
    if starts_with (c ∷ t) (codes "://") then some (drop 3 (c ∷ t)) else rest

-- `ari_ws_url`; `none` is an exception.
unfoldable pub ari_ws_url : Text → Option Text
unfolding strip_slashes behind_scheme
ari_ws_url ari_url =
    let base = reverse (strip_slashes (reverse ari_url)) in
    let scheme = if starts_with base (codes "https") then codes "wss" else codes "ws" in
    elim (behind_scheme base) [
      | none ↦ none
      | some host ↦ some (scheme ++ (codes "://" ++ (host ++ codes "/ari/events")))
    ]

-- scripts/gen_secrets.py: the random sources. `token_urlsafe k n` is what the k-th call returns for
-- n bytes.
pub record Sources : Type 0 where
  pub token_urlsafe : ℕ → ℕ → Text
  pub urandom : ℕ → Text

-- `_generated_values`.
unfoldable pub generated_values : Codec → Sources → List (Text × Text)
generated_values codec src =
    let postgres_password = src.token_urlsafe 0 24 in
    (codes "POSTGRES_PASSWORD", postgres_password)
    ∷ (codes "ARI_PASSWORD", src.token_urlsafe 1 24)
    ∷ (codes "API_KEYS", src.token_urlsafe 2 32)
    ∷ (codes "PARTY_HASH_SECRET", src.token_urlsafe 3 48)
    ∷ (codes "ENCRYPTION_KEY", codec.b64encode (src.urandom aes_key_bytes))
    ∷ (codes "WEBHOOK_SECRET", src.token_urlsafe 4 32)
    ∷ (codes "SIP_A_PASSWORD", src.token_urlsafe 5 20)
    ∷ (codes "SIP_B_PASSWORD", src.token_urlsafe 6 20)
    ∷ (codes "SIP_C_PASSWORD", src.token_urlsafe 7 20)
    ∷ (
      codes "DATABASE_URL",
      codes "postgresql+asyncpg://masking:"
          ++ (postgres_password ++ codes "@127.0.0.1:5432/masking"),
    )
    ∷ []

-- The value of a key, empty where there is none.
unfoldable pub value_of : Text → List (Text × Text) → Text
value_of key [] = []
value_of key ((k, v) ∷ rest) = let found = value_of key rest in if text_eq k key then v else found

-- The settings that are read from the values.
unfoldable pub configured : List (Text × Text) → Secrets
unfolding value_of
configured values = record {
  party_hash_secret = value_of (codes "PARTY_HASH_SECRET") values;
  encryption_key = value_of (codes "ENCRYPTION_KEY") values;
  api_keys = value_of (codes "API_KEYS") values;
  ari_password = value_of (codes "ARI_PASSWORD") values;
}

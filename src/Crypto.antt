-- ===== src/Crypto.antt =====
-- app/core/crypto.py. The primitives of `hmac`, `cryptography` and `secrets`, and the texts of bytes,
-- identifiers and times, are a parameter; a `bytes` is the list of its bytes.
pub mod Sealing
pub mod Pins
use number_masking_service.Prelude.{
  ℕ, zero, suc, ◌+◌, ◌-◌, ◌/◌, ◌%◌, ◌^◌, ◌<◌, ◌≡◌, Option, none, some, List, Bool, ◌&&◌, all,
  text_eq, [], ◌∷◌, ◌++◌, Text, ltb, leb, length, take, drop, if◌then◌else◌, codes,
}
use number_masking_service.Errors.{
  Error, type_error, Result, ok, err, value_error, invalid_tag, ◌>>=◌, ◌>>◌,
}

pub record Primitives : Type 0 where
  -- the hexadecimal HMAC-SHA256 of a message under a secret
  pub hmac_hex : Text → Text → Text
  -- AES-256-GCM with a key, a nonce and no associated data
  pub seal : Text → Text → Text → Text
  pub unseal : Text → Text → Text → Option Text
  -- UTF-8
  pub encode : Text → Text
  pub decode : Text → Option Text
  -- the number that the given draw of `secrets.randbelow` returns
  pub randbelow : ℕ → ℕ → ℕ
  -- `base64`
  pub b64encode : Text → Text
  pub b64decode : Text → Option Text
  -- `str` of a `uuid.UUID`, and `uuid.UUID` of a text
  pub uuid_text : ℕ → Text
  pub read_uuid : Text → Option ℕ
  -- `datetime.isoformat` and `datetime.fromisoformat`
  pub isoformat : ℕ → Text
  pub fromisoformat : Text → Option ℕ

abbrev pub nonce_bytes : ℕ
nonce_bytes = 12

module _ (c : Primitives) where
  unfoldable pub party_hash : Text → Text → Text
  party_hash e164 secret = c.hmac_hex (c.encode secret) (c.encode e164)

  -- `nonce` is what `os.urandom(NONCE_BYTES)` returned.
  unfoldable pub encrypt_e164 : Text → Text → Text → Text
  encrypt_e164 nonce e164 key = nonce ++ c.seal key nonce (c.encode e164)

  or_raise : Error → Option Text → Result Text
  or_raise e none = err e
  or_raise e (some t) = ok t

  unfoldable pub decrypt_e164 : Text → Text → Result Text
  unfolding or_raise
  decrypt_e164 blob key = if leb (length blob) nonce_bytes then err value_error else do
    payload ← or_raise invalid_tag (c.unseal key (take nonce_bytes blob) (drop nonce_bytes blob))
    -- a `UnicodeDecodeError` is a `ValueError`
    or_raise value_error (c.decode payload)

-- `str(n)`, with fuel: a number has fewer decimal digits than it has units, but one.
decimal_fuel : ℕ → ℕ → Text
decimal_fuel zero n = []
decimal_fuel (suc f) n =
    let front = decimal_fuel f (n / 10) in
    if ltb n 10 then (48 + n) ∷ [] else front ++ (48 + n % 10) ∷ []

unfoldable pub decimal : ℕ → Text
unfolding decimal_fuel
decimal n = decimal_fuel (suc n) n

unfoldable pub zeros : ℕ → Text
zeros zero = []
zeros (suc n) = 48 ∷ zeros n

-- `s.zfill(width)` of a text with no sign.
unfoldable pub zfill : ℕ → Text → Text
unfolding zeros
zfill width s = zeros (width - length s) ++ s

-- The PIN that a number gives.
unfoldable pub pin : ℕ → ℕ → Text
unfolding decimal zfill
pin width n = zfill width (decimal n)

-- `draw` counts the calls of `secrets.randbelow`.
unfoldable pub generate_ext_code : Primitives → ℕ → ℕ → Result Text
unfolding pin
generate_ext_code c draw width =
    if ltb width 1 then err value_error else ok (pin width (c.randbelow draw (10 ^ width)))

unfoldable pub webhook_signature : Primitives → Text → Text → Text
webhook_signature c body secret = codes "sha256=" ++ c.hmac_hex (c.encode secret) body

unfoldable pub is_ascii : Text → Bool
is_ascii t = all t (λ c. ltb c 128)

-- `constant_time_equals`: `hmac.compare_digest` raises for a text that is not ASCII.
unfoldable pub constant_time_equals : Text → Text → Result Bool
unfolding is_ascii
constant_time_equals left right =
    if is_ascii left && is_ascii right then ok (text_eq left right) else err type_error

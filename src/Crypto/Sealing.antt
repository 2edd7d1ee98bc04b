-- ===== src/Crypto/Sealing.antt =====
-- app/core/crypto.py: `decrypt_e164` undoes `encrypt_e164`.
use number_masking_service.Prelude.{
  ◌≡◌, ◌<◌, some, ◌++◌, arith, Text, length, take, drop, length-append, take-append, drop-append,
  leb, subst, false,
}
use number_masking_service.Errors.{ok}
use number_masking_service.Crypto.{Primitives, nonce_bytes, encrypt_e164, decrypt_e164, or_raise}

-- What the primitives document: AES-GCM decrypts what it encrypted, its output ends with a tag, and
-- UTF-8 decodes what it encoded.
pub record IsSound (c : Primitives) : Type 0 where
  pub unseal-seal : (key nonce t : Text) → c.unseal key nonce (c.seal key nonce t) ≡ some t
  pub tagged : (key nonce t : Text) → 0 < length (c.seal key nonce t)
  pub decode-encode : (t : Text) → c.decode (c.encode t) ≡ some t

module _ (c : Primitives) (sound : IsSound c) where
  -- A blob of a nonce and what was sealed under it.
  unseal_blob :
      (nonce sealed key t : Text)
      → length nonce ≡ nonce_bytes
      → 0 < length sealed
      → c.unseal key nonce sealed ≡ some (c.encode t)
      → decrypt_e164 c (nonce ++ sealed) key ≡ ok t
  unfolding decrypt_e164
  unseal_blob nonce sealed key t h k e =
      let front : take nonce_bytes (nonce ++ sealed) ≡ nonce =
        subst (λ n. take n (nonce ++ sealed) ≡ nonce) h (take-append nonce sealed) in
      let back : drop nonce_bytes (nonce ++ sealed) ≡ sealed =
        subst (λ n. drop n (nonce ++ sealed) ≡ sealed) h (drop-append nonce sealed) in
      let long : leb (length (nonce ++ sealed)) nonce_bytes ≡ false =
        ground (arith, length-append nonce sealed) in
      rw (long, front, back, e, or_raise, sound.decode-encode t)

  -- With the same key, a number that was encrypted under a nonce of 12 bytes decrypts to itself.
  pub decrypt-encrypt :
      (nonce e164 key : Text)
      → length nonce ≡ nonce_bytes
      → decrypt_e164 c (encrypt_e164 c nonce e164 key) key ≡ ok e164
  unfolding encrypt_e164
  decrypt-encrypt nonce e164 key h =
      unseal_blob nonce (c.seal key nonce (c.encode e164)) key e164 h
        (sound.tagged key nonce (c.encode e164)) (sound.unseal-seal key nonce (c.encode e164))

-- ===== src/Secrets/Generated.antt =====
-- scripts/gen_secrets.py with app/core/config.py: the secrets that the script generates are accepted.
use number_masking_service.Prelude.{
  ℕ, ◌≡◌, ◌≤◌, Text, length, codes, true, false, ◌||◌, ◌&&◌, ltb, suc, arith, All, [], ◌∷◌, Bool,
  ◌==◌, is_empty, leb, text_eq, text_eq_iff, some, refl, Bool-cases, inl, inr, All-mono, subst,
  &&-eq-true, ==→eq,
}
use number_masking_service.Errors.{ok}
use number_masking_service.Unicode.{Unicode}
use number_masking_service.Phone.{starts_with, strip}
use number_masking_service.Phone.Canonical.{strip-id}
use number_masking_service.Api.Access.{api_key_set, split_first, split_commas, comma}
use number_masking_service.Secrets.{
  Codec, Sources, encryption_key_bytes, contains, change_me, is_default_key,
  validate_production_secrets, generated_values, configured, problem_if, of_length,
}

abbrev pub is_alphanumeric : ℕ → Bool
is_alphanumeric c = (leb 48 c && leb c 57) || ((leb 65 c && leb c 90) || (leb 97 c && leb c 122))

-- The characters of `secrets.token_urlsafe`, and those of Base64.
abbrev pub is_urlsafe : ℕ → Bool
is_urlsafe c = is_alphanumeric c || (c == 45 || c == 95)

abbrev pub is_base64 : ℕ → Bool
is_base64 c = is_alphanumeric c || (c == 43 || (c == 47 || c == 61))

-- A token that does not happen to spell the mark of a default.
pub record IsToken (t : Text) : Type 0 where
  pub urlsafe : All (λ c. is_urlsafe c ≡ true) t
  pub unmarked : contains change_me t ≡ false

-- What `secrets` and `os` document: a token of n bytes is URL-safe, and has more characters than
-- bytes; `urandom` returns as many bytes as it is asked for.
pub record IsRandom (src : Sources) : Type 0 where
  pub urlsafe : (k n : ℕ) → All (λ c. is_urlsafe c ≡ true) (src.token_urlsafe k n)
  pub long : (k n : ℕ) → n ≤ length (src.token_urlsafe k n)
  pub bytes : (n : ℕ) → length (src.urandom n) ≡ n

-- What Base64 documents.
pub record IsBase64 (codec : Codec) : Type 0 where
  pub decode-encode : (key : Text) → codec.b64decode (codec.b64encode key) ≡ some key
  pub alphabet : (key : Text) → All (λ c. is_base64 c ≡ true) (codec.b64encode key)
  pub full : (key : Text) → is_empty key ≡ false → is_empty (codec.b64encode key) ≡ false

starts_with-All : (P : ℕ → Type 0) (t p : Text) → starts_with t p ≡ true → All P t → All P p
unfolding starts_with
starts_with-All P t [] e h = tt
starts_with-All P [] (c ∷ p) e h = absurd (cc e)
starts_with-All P (d ∷ t) (c ∷ p) e h =
    let (same, rest) = &&-eq-true (d == c) (starts_with t p) e in
    (subst P (==→eq d c same) h.0, starts_with-All P t p rest h.1)

no_dash : (t : Text) → All (λ c. (c == 45) ≡ false) t → contains change_me t ≡ false
unfolding contains
no_dash [] h = refl
no_dash (c ∷ t) h = elim (Bool-cases (starts_with (c ∷ t) change_me)) [
  | inl e ↦
      let none_is : All (λ c. (c == 45) ≡ false) change_me =
        starts_with-All (λ c. (c == 45) ≡ false) (c ∷ t) change_me e h in
      absurd (cc (none_is.1.1.1.1.1.1.0))
  | inr e ↦ rw e (no_dash t h.1)
]

default_marked : contains change_me (codes "dev-key-change-me") ≡ true
unfolding contains starts_with
default_marked = refl

split_first-whole : (t : Text) → All (λ c. (c == comma) ≡ false) t → split_first t ≡ (t, [])
unfolding split_first
split_first-whole [] h = refl
split_first-whole (c ∷ t) h = rw (h.0, split_first-whole t h.1)

module _ (u : Unicode) where
  alphanumeric-not-space : (c : ℕ) → is_urlsafe c ≡ true → u.is_space c ≡ false
  alphanumeric-not-space c h = ground (arith, u.space_ascii c)

  base64-not-space : (c : ℕ) → is_base64 c ≡ true → u.is_space c ≡ false
  base64-not-space c h = ground (arith, u.space_ascii c)

  strip-token : (t : Text) → IsToken t → strip u t ≡ t
  strip-token t h = strip-id u t (All-mono _ _ t alphanumeric-not-space h.urlsafe)

  -- A token is one key, unless it is empty.
  api_key_set-token : (t : Text) → IsToken t → is_empty t ≡ false → api_key_set u t ≡ t ∷ []
  unfolding api_key_set split_commas
  api_key_set-token t h full =
      let whole =
        split_first-whole t
          (All-mono _ _ t (λ (c : ℕ) (k : is_urlsafe c ≡ true). ground arith) h.urlsafe) in
      rw (whole, split_commas) (rw (strip-token t h, full))

  token-not-default : (t : Text) → IsToken t → is_default_key t ≡ false
  unfolding is_default_key
  token-not-default t h = elim (Bool-cases (text_eq t (codes "dev-key-change-me"))) [
    | inl same ↦
        let spelt : contains change_me t ≡ true =
          rw (text_eq_iff t (codes "dev-key-change-me") same) default_marked in
        absurd (cc (spelt, h.unmarked))
    | inr other ↦ rw (h.unmarked, other)
  ]

  -- The secrets that the script generates cause no warning, and the key is the one that was drawn, if
  -- the random sources and Base64 do what they document, and none of three tokens happens to spell
  -- "change-me".
  pub generated-accepted :
      (codec : Codec) (src : Sources)
      → IsBase64 codec
      → IsRandom src
      → contains change_me (src.token_urlsafe 1 24) ≡ false
      → contains change_me (src.token_urlsafe 2 32) ≡ false
      → contains change_me (src.token_urlsafe 3 48) ≡ false
      → (validate_production_secrets u (configured (generated_values codec src)) ≡ [])
        × (encryption_key_bytes u codec (configured (generated_values codec src))
            ≡ ok (src.urandom 32))
  unfolding validate_production_secrets configured generated_values encryption_key_bytes text_eq
      problem_if of_length
  generated-accepted codec src base random ari_plain keys_plain secret_plain =
      let raw = codec.b64encode (src.urandom 32) in
      let keys : IsToken (src.token_urlsafe 2 32) = record {
        urlsafe = random.urlsafe 2 32;
        unmarked = keys_plain;
      } in
      let full : is_empty (src.token_urlsafe 2 32) ≡ false =
        long_full (src.token_urlsafe 2 32) 31 (random.long 2 32) in
      let stripped : strip u raw ≡ raw =
        strip-id u raw (All-mono _ _ raw base64-not-space (base.alphabet (src.urandom 32))) in
      let there_is : is_empty raw ≡ false =
        base.full (src.urandom 32)
          (long_full (src.urandom 32) 31 (omega (arith, random.bytes 32))) in
      let plain : contains change_me raw ≡ false = no_dash raw (
        All-mono _ _ raw (λ (c : ℕ) (k : is_base64 c ≡ true). ground arith)
          (base.alphabet (src.urandom 32))) in
      let long : ltb (length (src.token_urlsafe 3 48)) 32 ≡ false =
        ground (arith, random.long 3 48) in
      (
        rw
            (
              stripped,
              there_is,
              plain,
              api_key_set-token (src.token_urlsafe 2 32) keys full,
              secret_plain,
              ari_plain,
              token-not-default (src.token_urlsafe 2 32) keys,
              long,
            )
            refl,
        rw (stripped, there_is, base.decode-encode (src.urandom 32), random.bytes 32) refl,
      )
    where
      long_full : (t : Text) (n : ℕ) → suc n ≤ length t → is_empty t ≡ false
      long_full [] n h = absurd (omega arith)
      long_full (c ∷ t) n h = refl

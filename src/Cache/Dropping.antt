-- ===== src/Cache/Dropping.antt =====
-- app/db/cache.py: what `invalidate_number` leaves of the entries of a number.
use number_masking_service.Prelude.{
  ℕ, ◌≤◌, ◌≡◌, ◌≢◌, ◌⊎◌, inl, inr, refl, none, some, List, [], ◌∷◌, ◌++◌, Bool, true, false,
  All-mono, All-append, arith, ◌||◌, ◌==◌, Text, text_eq, text_eq_refl, any-text_eq, Option-cases,
  In-any, codes, any, All, In, here, there, Bool-cases, subst, sym,
}
use number_masking_service.Unicode.{Unicode}
use number_masking_service.Phone.Normal.{IsE164}
use number_masking_service.Cache.{
  Redis, Payload, lookup_prefix, lookup_key, delete_each, invalidate_number, cache_get_json, decode,
}

-- The characters that a pattern of SCAN does not read as themselves.
abbrev pub is_glob : ℕ → Bool
is_glob c = c == 42 || (c == 63 || (c == 91 || (c == 92 || c == 93)))

-- No text is found under the key from a time on.
abbrev pub Absent : (r : Redis) → r.Store → ℕ → Text → Type 0
Absent r s now key = (t : ℕ) (raw : Text) → now ≤ t → r.get s t key ≢ some (some raw)

-- What Redis documents of DEL and SCAN: a key that is deleted is gone, no other key comes into being,
-- and SCAN returns every key that is there and begins with the text before the star.
pub record IsLawful (r : Redis) : Type 0 where
  pub get-delete :
      (s s' : r.Store) (now : ℕ) (keys : List Text) (key : Text)
      → r.delete s keys ≡ some s'
      → In key keys
      → Absent r s' now key
  pub delete-Absent :
      (s s' : r.Store) (now : ℕ) (keys : List Text) (key : Text)
      → r.delete s keys ≡ some s'
      → Absent r s now key
      → Absent r s' now key
  pub scan-complete :
      (s : r.Store) (now t : ℕ) (prefix rest raw : Text) (keys : List Text)
      → All (λ c. is_glob c ≡ false) prefix
      → r.scan s now (prefix ++ codes "*") ≡ some keys
      → now ≤ t
      → r.get s t (prefix ++ rest) ≡ some (some raw)
      → In (prefix ++ rest) keys

-- What Redis documents of SET: only the value of its key changes; and `json`: what is read back is what
-- was written.
pub record IsStoring (r : Redis) : Type 0 where
  pub get-set :
      (s s' : r.Store) (now ttl t : ℕ) (key value k raw : Text)
      → r.set s now key value ttl ≡ some s'
      → r.get s' t k ≡ some (some raw)
      → (raw ≡ value) ⊎ (r.get s t k ≡ some (some raw))
  pub loads-dumps : (p q : Payload) → r.loads (r.dumps p) ≡ some q → p ≡ q

-- The server answers.
pub record IsUp (r : Redis) : Type 0 where
  pub scans : (s : r.Store) (now : ℕ) (pattern : Text) → r.scan s now pattern ≢ none
  pub deletes : (s : r.Store) (keys : List Text) → r.delete s keys ≢ none

module _ (r : Redis) (lawful : IsLawful r) (up : IsUp r) (now : ℕ) (key : Text) where
  delete_each-Absent :
      (s : r.Store) (keys : List Text)
      → In key keys ⊎ Absent r s now key
      → Absent r (delete_each r s keys) now key
  unfolding delete_each
  delete_each-Absent s [] (inl m) = elim m [ ]
  delete_each-Absent s [] (inr gone) = gone
  delete_each-Absent s (k ∷ keys) h = elim (Option-cases (r.delete s (k ∷ []))) [
    | inl down ↦ absurd (up.deletes s (k ∷ []) down)
    | inr (s', e) ↦
        rw (e, delete_each)
          (delete_each-Absent s' keys (elim h [
            | inl (here same) ↦ inr (lawful.get-delete s s' now (k ∷ []) key e (here same))
            | inl (there m) ↦ inl m
            | inr gone ↦ inr (lawful.delete-Absent s s' now (k ∷ []) key e gone)
          ]))
  ]

  -- The entries of a number are gone once `invalidate_number` is done, from then on.
  pub invalidate_number-Absent :
      (s : r.Store) (proxy caller_hash : Text)
      → key ≡ lookup_key proxy caller_hash
      → All (λ x. is_glob x ≡ false) (lookup_prefix proxy)
      → Absent r (invalidate_number r s now proxy) now key
  unfolding invalidate_number lookup_key
  invalidate_number-Absent s proxy caller_hash named plain =
      elim (Option-cases (r.scan s now (lookup_prefix proxy ++ codes "*"))) [
        | inl down ↦ absurd (up.scans s now (lookup_prefix proxy ++ codes "*") down)
        | inr (keys, e) ↦
            let listed : In key keys ⊎ Absent r s now key =
              elim (Bool-cases (any keys (text_eq key))) [
                | inl known ↦ inl (any-text_eq key keys known)
                | inr other ↦ inr (λ t raw later held.
                    let m : In (lookup_prefix proxy ++ caller_hash) keys =
                      lawful.scan-complete s now t (lookup_prefix proxy) caller_hash raw keys plain
                        e later (subst (λ x. r.get s t x ≡ some (some raw)) named held) in
                    cc (
                      In-any (text_eq key) keys key (subst (λ x. In x keys) (sym named) m)
                          (text_eq_refl key),
                      other,
                    ))
              ] in
            let dropped : Absent r (delete_each r s keys) now key =
              delete_each-Absent s keys listed in
            subst (λ x. Absent r x now key) (rw (e, invalidate_number) refl) dropped
      ]

-- What is absent is not read.
pub cache_get_json-Absent :
    (r : Redis) (s : r.Store) (now t : ℕ) (key : Text)
    → Absent r s now key
    → now ≤ t
    → cache_get_json r s t key ≡ none
unfolding cache_get_json
cache_get_json-Absent r s now t key gone later = elim (Option-cases (r.get s t key)) [
  | inl down ↦ rw (down, cache_get_json, decode)
  | inr (none, e) ↦ rw (e, cache_get_json, decode)
  | inr (some raw, e) ↦ absurd (gone t raw later e)
]

-- What is read was found as a text.
pub cache_get_json-read :
    (r : Redis) (s : r.Store) (t : ℕ) (key : Text) (p : Payload)
    → cache_get_json r s t key ≡ some p
    → (raw : Text) × (r.get s t key ≡ some (some raw)) × (r.loads raw ≡ some p)
unfolding cache_get_json
cache_get_json-read r s t key p held = elim (Option-cases (r.get s t key)) [
  | inl down ↦ absurd (cc (rw (down, cache_get_json, decode) at held))
  | inr (none, e) ↦ absurd (cc (rw (e, cache_get_json, decode) at held))
  | inr (some raw, e) ↦ (raw, e, rw (e, cache_get_json, decode) at held)
]

decimal-plain : (u : Unicode) (x : ℕ) → u.is_decimal x ≡ true → is_glob x ≡ false
decimal-plain u x h = ground (
  arith,
  u.decimal_ascii 42,
  u.decimal_ascii 63,
  u.decimal_ascii 91,
  u.decimal_ascii 92,
  u.decimal_ascii 93,
)

-- The entries of an E.164 number are found by their prefix.
pub lookup_prefix-plain :
    (u : Unicode) (proxy : Text)
    → IsE164 u proxy
    → All (λ x. is_glob x ≡ false) (lookup_prefix proxy)
unfolding lookup_prefix
lookup_prefix-plain u proxy number =
    let digits : All (λ x. is_glob x ≡ false) number.rest =
      All-mono _ _ number.rest (decimal-plain u) number.numeric in
    let named : All (λ x. is_glob x ≡ false) proxy =
      rw number.shape (refl, (ground arith, digits)) in
    All-append (λ x. is_glob x ≡ false) (codes "lookup:") (proxy ++ codes ":") (ground arith)
      (All-append (λ x. is_glob x ≡ false) proxy (codes ":") named (refl, tt))

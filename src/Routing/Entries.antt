-- ===== src/Routing/Entries.antt =====
-- app/services/routing.py: the cached routes of a number, over any run of calls on it.
use number_masking_service.Prelude.{
  arith, ℕ, ◌≡◌, ◌≢◌, ◌≤◌, ◌∙◌, sym, ap, subst, Option, none, some, List, [], ◌∷◌, Text, All,
  Option-cases, Bool-cases, inl, inr, ◌==◌, if_induction,
}
use number_masking_service.Errors.{Result, Result-cases, ok, err, >>=-eq-ok, ok-injective}
use number_masking_service.Unicode.{Unicode}
use number_masking_service.Settings.{Settings}
use number_masking_service.Phone.{normalize_e164}
use number_masking_service.Crypto.{Primitives, party_hash, decrypt_e164}
use number_masking_service.Db.{Db}
use number_masking_service.Cache.{
  Redis, Payload, lookup_key, cache_get_json, cache_set_json, negative_ttl_seconds,
}
use number_masking_service.Cache.Dropping.{IsStoring, cache_get_json-read}
use number_masking_service.Lookup.{Candidate, load_candidates, had_session}
use number_masking_service.Routing.{
  Decision, resolve_call, resolve_known, resolve_from_db, cached, or_raw, remember, rejection,
  connection, route_payload, miss_payload, miss_status, route_ttl, decision_from_cache,
  live_decision, except_none, cached_miss, cached_route, cached_expiry, cached_candidate, is_stale,
  item, parsed,
}
use number_masking_service.Routing.Verdict.{SpeaksOf, decide-SpeaksOf, reject-SpeaksOf}

-- A call that is looked up: the tables as they are committed by then, and what it says and draws.
pub record Visit : Type 0 where
  pub db : Db
  pub dialled : Text
  pub caller : Text
  pub now : ℕ
  pub nonce : Text

-- The verdicts on calls that are looked up one after the other; one that raises leaves the cache.
unfoldable pub verdicts :
    (r : Redis) → Primitives → Unicode → Settings → r.Store → List Visit → List Decision
verdicts r c u settings s [] = []
verdicts r c u settings s (v ∷ vs) =
    elim (resolve_call r c u settings s v.db v.dialled v.caller v.now v.nonce) [
      | err e ↦ verdicts r c u settings s vs
      | ok (d, s') ↦ d ∷ verdicts r c u settings s' vs
    ]

-- What `uuid` documents: an identifier is read back from its text.
abbrev pub IsNaming : Primitives → Type 0
IsNaming c = (n m : ℕ) → c.read_uuid (c.uuid_text n) ≡ some m → n ≡ m

some_same {ℓ} : {A : Type ℓ} {a b : A} → some a ≡ some b → a ≡ b
some_same h = cc

item-some {ℓ} : {A : Type ℓ} (o : Option A) (a : A) → item o ≡ ok a → o ≡ some a
unfolding item
item-some none a h = absurd (cc h)
item-some (some x) a h = ap some (ok-injective h)

parsed-some {ℓ} : {A : Type ℓ} (o : Option A) (a : A) → parsed o ≡ ok a → o ≡ some a
unfolding parsed
parsed-some none a h = absurd (cc h)
parsed-some (some x) a h = ap some (ok-injective h)

module _ (r : Redis) (storing : IsStoring r) (c : Primitives) (naming : IsNaming c) (u : Unicode)
    (settings : Settings) (i : ℕ) (proxy : Text) (now : ℕ) where
  -- The entry is of another session, or of none.
  abbrev Other : Payload → Type 0
  Other p = (t : Text) → p.session_id ≡ some t → c.read_uuid t ≢ some i

  abbrev Apart : Candidate → Type 0
  Apart x = x.session_id ≢ i

  -- No entry of the number that is read from now on is of the session.
  abbrev pub Clean : r.Store → Type 0
  Clean s =
      (t : ℕ) (hash raw : Text) (p : Payload)
      → now ≤ t
      → r.get s t (lookup_key proxy hash) ≡ some (some raw)
      → r.loads raw ≡ some p
      → Other p

  set-Clean :
      (s : r.Store) (at ttl : ℕ) (key : Text) (p : Payload)
      → Other p
      → Clean s
      → Clean (cache_set_json r s at key p ttl)
  unfolding cache_set_json
  set-Clean s at ttl key p other clean = elim (Option-cases (r.set s at key (r.dumps p) ttl)) [
    | inl down ↦ rw (down, cache_set_json) clean
    | inr (s', e) ↦
        rw (e, cache_set_json)
          (λ t hash raw q later held read.
            elim (storing.get-set s s' at ttl t key (r.dumps p) (lookup_key proxy hash) raw e
              held) [
                | inl same ↦
                    let own : p ≡ q =
                      storing.loads-dumps p q (subst (λ x. r.loads x ≡ some q) same read) in
                    subst Other own other
                | inr old ↦ clean t hash raw q later old read
              ])
  ]

  route-Other : (nonce : Text) (x : Candidate) → Apart x → Other (route_payload c settings nonce x)
  unfolding route_payload
  route-Other nonce x apart t e k =
      let text : c.uuid_text x.session_id ≡ t = some_same e in
      apart (naming x.session_id i (subst (λ y. c.read_uuid y ≡ some i) (sym text) k))

  miss-Other : (status : Text) → Other (miss_payload status)
  unfolding miss_payload
  miss-Other status t e k = cc e

  remember-Clean :
      (s : r.Store) (db : Db) (hash : Text) (at : ℕ) (nonce : Text) (cs : List Candidate)
      → All Apart cs
      → Clean s
      → Clean (remember r c u settings s db proxy hash at nonce cs)
  unfolding remember
  remember-Clean s db hash at nonce [] h clean =
      set-Clean s at negative_ttl_seconds (lookup_key proxy hash)
        (miss_payload (miss_status (had_session db proxy hash)))
        (miss-Other (miss_status (had_session db proxy hash))) clean
  remember-Clean s db hash at nonce (x ∷ []) h clean =
      if_induction Clean (route_ttl x at == 0) (λ e. clean)
        (λ e.
          set-Clean s at (route_ttl x at) (lookup_key proxy hash) (route_payload c settings nonce x)
            (route-Other nonce x h.0) clean)
  remember-Clean s db hash at nonce (x ∷ y ∷ more) h clean = clean

  cached_route-Apart :
      (p : Payload) (e : Option ℕ) (hash : Text) (d : Decision)
      → Other p
      → cached_route c settings p e proxy hash ≡ ok d
      → SpeaksOf Apart d
  unfolding cached_route cached_candidate connection
  cached_route-Apart p e hash d other k =
      let (text, _, k₁) = >>=-eq-ok (item p.callee_enc) _ k in
      let (blob, _, k₂) = >>=-eq-ok (parsed (c.b64decode text)) _ k₁ in
      let (callee, _, k₃) = >>=-eq-ok (decrypt_e164 c blob settings.encryption_key) _ k₂ in
      let (name, named, k₄) = >>=-eq-ok (item p.session_id) _ k₃ in
      let (id, known, k₅) = >>=-eq-ok (parsed (c.read_uuid name)) _ k₄ in
      let (direction, _, k₆) = >>=-eq-ok (item p.direction) _ k₅ in
      let apart : id ≢ i = λ same.
        other name (item-some p.session_id name named)
          (parsed-some (c.read_uuid name) id known ∙ ap some same) in
      subst (SpeaksOf Apart) (ok-injective k₆) (record { connected = apart; asked = tt })

  live_decision-Apart :
      (p : Payload) (hash : Text) (t : ℕ) (expiry : Result (Option ℕ)) (d : Decision)
      → Other p
      → live_decision c settings p proxy hash t expiry ≡ some d
      → SpeaksOf Apart d
  unfolding live_decision except_none
  live_decision-Apart p hash t (err x) d other k = absurd (cc k)
  live_decision-Apart p hash t (ok e) d other k = elim (Bool-cases (is_stale e t)) [
    | inl old ↦ absurd (cc (rw old at k))
    | inr live ↦ elim (Result-cases (cached_route c settings p e proxy hash)) [
      | inl (x, bad) ↦ absurd (cc (rw (bad, except_none) at (rw live at k)))
      | inr (d', good) ↦
          let same : d' ≡ d = cc (rw (good, except_none) at (rw live at k)) in
          subst (SpeaksOf Apart) same (cached_route-Apart p e hash d' other good)
    ]
  ]

  entry-Other :
      (s : r.Store) (t : ℕ) (hash : Text) (p : Payload)
      → Clean s
      → now ≤ t
      → cache_get_json r s t (lookup_key proxy hash) ≡ some p
      → Other p
  entry-Other s t hash p clean later held =
      let (raw, stored, read) = cache_get_json-read r s t (lookup_key proxy hash) p held in
      clean t hash raw p later stored read

  -- What is answered from a clean cache is not of the session.
  cached-Apart :
      (s : r.Store) (hash : Text) (t : ℕ) (d : Decision)
      → Clean s
      → now ≤ t
      → cached r c u settings s proxy hash t ≡ some d
      → SpeaksOf Apart d
  unfolding cached decision_from_cache cached_miss rejection
  cached-Apart s hash t d clean later e =
      elim (Option-cases (cache_get_json r s t (lookup_key proxy hash))) [
        | inl gone ↦ absurd (cc (rw (gone, cached) at e))
        | inr (p, held) ↦
            let other = entry-Other s t hash p clean later held in
            elim (Bool-cases p.miss) [
              | inl missed ↦
                  let same = rw (missed, decision_from_cache) at (rw (held, cached) at e) in
                  subst (SpeaksOf Apart) (some_same same) (record { connected = tt; asked = tt })
              | inr route ↦
                  live_decision-Apart p hash t (cached_expiry c p.expires_at) d other
                    (rw (route, decision_from_cache) at (rw (held, cached) at e))
            ]
      ]

  resolve_call-known :
      (s : r.Store) (v : Visit) (caller : Text)
      → normalize_e164 u none v.dialled ≡ ok proxy
      → normalize_e164 u none v.caller ≡ ok caller
      → resolve_call r c u settings s v.db v.dialled v.caller v.now v.nonce
        ≡ resolve_known r c u settings s v.db proxy
            (party_hash c caller settings.party_hash_secret)
            v.now
            v.nonce
  unfolding resolve_call or_raw
  resolve_call-known s v caller named from = ground (arith, named, from)

  -- A call whose candidates are not of the session: neither is its verdict, and the cache stays clean.
  resolve_call-Apart :
      (s : r.Store) (v : Visit) (d : Decision) (s' : r.Store)
      → normalize_e164 u none v.dialled ≡ ok proxy
      → now ≤ v.now
      → ((hash : Text) (cs : List Candidate)
          → load_candidates c settings v.db proxy hash v.now ≡ ok cs
          → All Apart cs)
      → Clean s
      → resolve_call r c u settings s v.db v.dialled v.caller v.now v.nonce ≡ ok (d, s')
      → SpeaksOf Apart d × Clean s'
  unfolding resolve_call resolve_known resolve_from_db
  resolve_call-Apart s v d s' named later only clean e =
      let Fine : Decision × r.Store → Type 0 = λ p. SpeaksOf Apart p.0 × Clean p.1 in
      elim (Result-cases (normalize_e164 u none v.caller)) [
        | inl (x, bad) ↦
            subst Fine (ok-injective (rw (bad, resolve_call) at e))
              (reject-SpeaksOf settings v.db _ _ _ _, clean)
        | inr (caller, good) ↦
            let hash = party_hash c caller settings.party_hash_secret in
            let known = sym (resolve_call-known s v caller named good) ∙ e in
            elim (Option-cases (cached r c u settings s proxy hash v.now)) [
              | inr (x, held) ↦
                  subst Fine (ok-injective (rw (held, resolve_known) at known))
                    (cached-Apart s hash v.now x clean later held, clean)
              | inl gone ↦
                  let (cs, loaded, rest) =
                    >>=-eq-ok (load_candidates c settings v.db proxy hash v.now) _
                      (rw (gone, resolve_known) at known) in
                  let apart = only hash cs loaded in
                  subst Fine (ok-injective rest) (
                    decide-SpeaksOf settings v.db proxy hash cs apart,
                    remember-Clean s v.db hash v.now v.nonce cs apart clean,
                  )
            ]
      ]

  -- A call on the number from now on, at tables that give it no candidate of the session.
  pub record IsLater (v : Visit) : Type 0 where
    pub named : normalize_e164 u none v.dialled ≡ ok proxy
    pub after : now ≤ v.now
    pub only :
        (hash : Text) (cs : List Candidate)
        → load_candidates c settings v.db proxy hash v.now ≡ ok cs
        → All Apart cs

  -- From a clean cache no run of such calls gets a verdict of the session.
  pub verdicts-Apart :
      (s : r.Store) (vs : List Visit)
      → Clean s
      → All IsLater vs
      → All (SpeaksOf (λ x. x.session_id ≢ i)) (verdicts r c u settings s vs)
  unfolding verdicts
  verdicts-Apart s [] clean h = tt
  verdicts-Apart s (v ∷ vs) clean h =
      elim (Result-cases (resolve_call r c u settings s v.db v.dialled v.caller v.now v.nonce)) [
        | inl (e, bad) ↦ rw (bad, verdicts) (verdicts-Apart s vs clean h.1)
        | inr ((d, s'), good) ↦
            let (speaks, clean') =
              resolve_call-Apart s v d s' h.0.named h.0.after h.0.only clean good in
            rw (good, verdicts) (speaks, verdicts-Apart s' vs clean' h.1)
      ]

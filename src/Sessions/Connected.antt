-- ===== src/Sessions/Connected.antt =====
-- app/services/sessions.py and routing.py: once a pair has a number of its own, a call on it is
-- connected to the other side.
use number_masking_service.Prelude.{ℕ, ◌≡◌, ◌≢◌, ◌≤◌, ◌<◌, sym, subst, refl, none, length, Text}
use number_masking_service.Errors.{ok, >>=-eq-ok, ok-injective}
use number_masking_service.Unicode.{Unicode}
use number_masking_service.Settings.{Settings}
use number_masking_service.Phone.{normalize_e164}
use number_masking_service.Phone.Normal.{normalize_e164-IsE164}
use number_masking_service.Crypto.{Primitives, party_hash, nonce_bytes}
use number_masking_service.Crypto.Sealing.{IsSound}
use number_masking_service.Db.{Role, side_a, side_b}
use number_masking_service.Allocation.{exclusive}
use number_masking_service.Cache.{Redis, lookup_key, cache_get_json, invalidate_number}
use number_masking_service.Cache.Dropping.{
  Absent, IsLawful, IsUp, lookup_prefix-plain, invalidate_number-Absent, cache_get_json-Absent,
}
use number_masking_service.Lookup.{candidate_of}
use number_masking_service.Lookup.Added.{IsKeyed}
use number_masking_service.Routing.{resolve_call, connection}
use number_masking_service.Routing.Fresh.{resolve_call-single}
use number_masking_service.Sessions.{
  World, Surroundings, SessionCreate, CreatedSession, create_in_db, create_session,
}
use number_masking_service.Sessions.Routes.{exclusive_session_connects}

-- What `create_session` does to the tables and to the cache.
pub record IsStored (c : Primitives) (settings : Settings) (env : Surroundings)
    (req : SessionCreate) (r : Redis) (u : Unicode) (w w' : World r) (created : CreatedSession)
    (draw : ℕ) : Type 0 where
  pub tables : create_in_db c settings env req u w.db ≡ ok (created, w'.db, draw)
  pub dropped : w'.cache ≡ invalidate_number r w.cache env.cache_now created.allocation.proxy_e164

pub create_session-IsStored :
    (c : Primitives) (settings : Settings) (env : Surroundings) (req : SessionCreate) (r : Redis)
    (u : Unicode) (w w' : World r) (created : CreatedSession) (draw : ℕ)
    → create_session c settings env req r u w ≡ ok (created, w', draw)
    → IsStored c settings env req r u w w' created draw
unfolding create_session
create_session-IsStored c settings env req r u w w' created draw e =
    let ((made, db, left), k, e₁) = >>=-eq-ok (create_in_db c settings env req u w.db) _ e in
    let same = ok-injective e₁ in
    subst (λ (p : CreatedSession × World r × ℕ). IsStored c settings env req r u w p.1 p.0 p.2) same
      (record { tables = k; dropped = refl })

module _ (r : Redis) (lawful : IsLawful r) (up : IsUp r) (c : Primitives) (settings : Settings)
    (env : Surroundings) (req : SessionCreate) (sound : IsSound c) (a b : Text)
    (nonce_a : length env.nonce_a ≡ nonce_bytes) (nonce_b : length env.nonce_b ≡ nonce_bytes)
    (apart : party_hash c a settings.party_hash_secret
      ≢ party_hash c b settings.party_hash_secret) where
  -- The side gets through: its call on the dialled number is connected to the other side.
  abbrev pub Reaches :
      Unicode → World r → CreatedSession → ℕ → Text → Text → Text → Role → Text → Text → Type 0
  Reaches u w created now nonce dialled caller role own other =
      (s : r.Store) × (resolve_call r c u settings w.cache w.db dialled caller now nonce
        ≡ ok (
          connection created.allocation.proxy_e164 (party_hash c own settings.party_hash_secret)
              (candidate_of (record { session = created.session; role = role }) other),
          s,
        ))

  -- A call of either party that is the first to be looked up after create_session gave a pair a
  -- number of its own, and that comes before the session expires, is connected to the other party's
  -- number, whatever the lookup cache held before create_session. The call finds the tables and the
  -- cache as create_session left them: its transaction is committed, nothing was looked up since
  -- the cached routes were dropped, and no other operation has changed the tables. Both calls are
  -- written in any notation; the hashes of the two numbers differ, the nonces have 12 bytes, the
  -- primitives and the cache server do what they document, the server answers, and the keys of the
  -- tables are unique.
  pub created_session_connects :
      (u : Unicode) (w w' : World r) (created : CreatedSession) (draw now : ℕ)
      (nonce dialled caller_a caller_b : Text)
      → normalize_e164 u none req.party_a ≡ ok a
      → normalize_e164 u none req.party_b ≡ ok b
      → create_session c settings env req r u w ≡ ok (created, w', draw)
      → created.allocation.mode ≡ exclusive
      → IsKeyed env.uuid w.db
      → env.cache_now ≤ now
      → now < created.session.expires_at
      → normalize_e164 u none dialled ≡ ok created.allocation.proxy_e164
      → normalize_e164 u none caller_a ≡ ok a
      → normalize_e164 u none caller_b ≡ ok b
      → Reaches u w' created now nonce dialled caller_a side_a a b
        × Reaches u w' created now nonce dialled caller_b side_b b a
  created_session_connects u w w' created draw now nonce dialled caller_a caller_b na nb e alone
        keyed after in_time named from_a from_b =
      let done = create_session-IsStored c settings env req r u w w' created draw e in
      let proxy = created.allocation.proxy_e164 in
      let plain = lookup_prefix-plain u proxy (normalize_e164-IsE164 u dialled proxy named) in
      let gone : (hash : Text) → cache_get_json r w'.cache now (lookup_key proxy hash) ≡ none =
        λ hash.
          cache_get_json-Absent r w'.cache env.cache_now now (lookup_key proxy hash)
            (subst (λ x. Absent r x env.cache_now (lookup_key proxy hash)) (sym done.dropped)
              (invalidate_number-Absent r lawful up env.cache_now (lookup_key proxy hash) w.cache
                proxy hash refl plain))
            after in
      let (to_b, to_a) =
        exclusive_session_connects c settings env req sound a b nonce_a nonce_b apart u w.db created
          w'.db draw now na nb done.tables alone keyed in_time in
      (
        resolve_call-single r c u settings w'.cache w'.db dialled caller_a now nonce proxy a
            (candidate_of (record { session = created.session; role = side_a }) b) named from_a
            (gone (party_hash c a settings.party_hash_secret)) to_b,
        resolve_call-single r c u settings w'.cache w'.db dialled caller_b now nonce proxy b
            (candidate_of (record { session = created.session; role = side_b }) a) named from_b
            (gone (party_hash c b settings.party_hash_secret)) to_a,
      )

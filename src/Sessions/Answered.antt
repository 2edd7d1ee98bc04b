-- ===== src/Sessions/Answered.antt =====
-- app/services/sessions.py and routing.py: once a pair shares a number with others, its PIN leads a
-- call on the number to the other side.
use number_masking_service.Prelude.{
  ℕ, ◌≡◌, ◌≢◌, ◌∙◌, ◌≤◌, ◌<◌, sym, subst, refl, some, none, List, length, Text,
}
use number_masking_service.Errors.{ok}
use number_masking_service.Unicode.{Unicode}
use number_masking_service.Settings.{Settings}
use number_masking_service.Phone.{normalize_e164}
use number_masking_service.Phone.Normal.{normalize_e164-IsE164}
use number_masking_service.Crypto.{Primitives, party_hash, nonce_bytes}
use number_masking_service.Crypto.Pins.{IsBelow}
use number_masking_service.Crypto.Sealing.{IsSound}
use number_masking_service.Db.{Role, side_a, side_b}
use number_masking_service.Cache.{Redis, lookup_key, cache_get_json}
use number_masking_service.Cache.Dropping.{
  Absent, IsLawful, IsUp, lookup_prefix-plain, invalidate_number-Absent, cache_get_json-Absent,
}
use number_masking_service.Lookup.{Candidate, candidate_of, load_candidates}
use number_masking_service.Lookup.Added.{IsKeyed}
use number_masking_service.Lookup.Chosen.{Holds, IsSide, load_candidates-Holds}
use number_masking_service.Routing.{Decision, resolve_call, resolve_from_db, decide, remember}
use number_masking_service.Routing.Asked.{LeadsTo, decide-LeadsTo}
use number_masking_service.Routing.Fresh.{resolve_call-uncached}
use number_masking_service.Sessions.{
  World, Surroundings, SessionCreate, CreatedSession, create_session, new_parties,
}
use number_masking_service.Sessions.Connected.{create_session-IsStored}
use number_masking_service.Sessions.Creation.{IsCreated, create_in_db-IsCreated}
use number_masking_service.Sessions.Shared.{
  id-created, code-created, fresh-created, tables-created, created-IsPlaced, code-nonempty,
  first-Side, second-Side,
}

module _ (r : Redis) (lawful : IsLawful r) (up : IsUp r) (c : Primitives) (settings : Settings)
    (env : Surroundings) (req : SessionCreate) (sound : IsSound c) (below : IsBelow c) (a b : Text)
    (nonce_a : length env.nonce_a ≡ nonce_bytes) (nonce_b : length env.nonce_b ≡ nonce_bytes)
    (apart : party_hash c a settings.party_hash_secret
      ≢ party_hash c b settings.party_hash_secret) where
  -- What the call of a side is answered: a verdict that leads to the session by its PIN.
  abbrev pub Answers :
      Unicode
      → World r
      → CreatedSession
      → Text
      → ℕ
      → Text
      → Text
      → Text
      → Role
      → Text
      → Text
      → Type 0
  Answers u w created code now nonce dialled caller role own other =
      (d : Decision) × (s : r.Store) × (resolve_call r c u settings w.cache w.db dialled caller now
          nonce
        ≡ ok (d, s))
      × LeadsTo settings created.allocation.proxy_e164 (party_hash c own settings.party_hash_secret)
          code (candidate_of (record { session = created.session; role = role }) other) d

  module _ (u : Unicode) (w w' : World r) (created : CreatedSession) (code : Text) (draw now : ℕ)
      (nonce dialled : Text) (na : normalize_e164 u none req.party_a ≡ ok a)
      (nb : normalize_e164 u none req.party_b ≡ ok b)
      (e : create_session c settings env req r u w ≡ ok (created, w', draw))
      (coded : created.allocation.ext_code ≡ some code) (keyed : IsKeyed env.uuid w.db)
      (after : env.cache_now ≤ now) (in_time : now < created.session.expires_at)
      (named : normalize_e164 u none dialled ≡ ok created.allocation.proxy_e164) where
    made_in_db : IsCreated c settings env req a b w.db created w'.db
    made_in_db =
        create_in_db-IsCreated c settings env req u a b w.db created w'.db draw na nb
          (create_session-IsStored c settings env req r u w w' created draw e).tables

    gone :
        (hash : Text)
        → cache_get_json r w'.cache now (lookup_key created.allocation.proxy_e164 hash) ≡ none
    gone hash =
        let proxy = created.allocation.proxy_e164 in
        let plain = lookup_prefix-plain u proxy (normalize_e164-IsE164 u dialled proxy named) in
        let dropped =
          (create_session-IsStored c settings env req r u w w' created draw e).dropped in
        cache_get_json-Absent r w'.cache env.cache_now now (lookup_key proxy hash)
          (subst (λ x. Absent r x env.cache_now (lookup_key proxy hash)) (sym dropped)
            (invalidate_number-Absent r lawful up env.cache_now (lookup_key proxy hash) w.cache
              proxy hash refl plain))
          after

    answered :
        (caller own other : Text) (role : Role) (cs : List Candidate)
        → IsSide c settings.encryption_key made_in_db.got.db created.session
            (new_parties c settings env req made_in_db.got.allocation a b)
            (party_hash c own settings.party_hash_secret)
            role
            other
        → normalize_e164 u none caller ≡ ok own
        → load_candidates c settings w'.db created.allocation.proxy_e164
            (party_hash c own settings.party_hash_secret)
            now
          ≡ ok cs
        → Answers u w' created code now nonce dialled caller role own other
    unfolding resolve_from_db candidate_of
    answered caller own other role cs side from loaded =
        let proxy = created.allocation.proxy_e164 in
        let h = party_hash c own settings.party_hash_secret in
        let s = created.session in
        let ps = new_parties c settings env req made_in_db.got.allocation a b in
        let mine = candidate_of (record { session = s; role = role }) other in
        let own_code =
          code-created c settings env req a b w.db created w'.db code made_in_db coded in
        let tables =
          tables-created c settings env req a b w.db created w'.db code made_in_db coded in
        let placed =
          created-IsPlaced c settings env req a b w.db created w'.db code made_in_db coded now keyed
            in_time in
        let held : Holds code mine cs =
          load_candidates-Holds c settings made_in_db.got.db proxy now s ps placed h code role other
            own_code side cs
            (subst (λ d. load_candidates c settings d proxy h now ≡ ok cs) tables loaded) in
        (
          decide settings w'.db proxy h cs,
          remember r c u settings w'.cache w'.db proxy h now nonce cs,
          resolve_call-uncached r c u settings w'.cache w'.db dialled caller now nonce proxy own
                named from (gone h)
              ∙ rw loaded,
          decide-LeadsTo settings proxy h code mine
              (code-nonempty c settings env req a b w.db created w'.db code made_in_db coded below)
              own_code w'.db cs held,
        )

  -- A call of either party that is the first to be looked up after create_session gave a pair a PIN
  -- on a number that it shares, and that comes before the session expires, is either connected to
  -- the other party at once, or the caller is asked for a PIN, and among the sessions offered the
  -- PIN selects this one and the other party, whatever the lookup cache held before create_session.
  -- The call finds the tables and the cache as create_session left them: its transaction is
  -- committed, nothing was looked up since the cached routes were dropped, and no other operation
  -- has changed the tables. The calls are written in any notation; the rows of the two callers can
  -- be decrypted, the hashes of the two numbers differ, the nonces have 12 bytes, the primitives
  -- and the cache server do what they document, the server answers, and the keys of the tables are
  -- unique.
  pub shared_session_answers :
      (u : Unicode) (w w' : World r) (created : CreatedSession) (code : Text) (draw now : ℕ)
      (nonce dialled caller_a caller_b : Text) (cs_a cs_b : List Candidate)
      → normalize_e164 u none req.party_a ≡ ok a
      → normalize_e164 u none req.party_b ≡ ok b
      → create_session c settings env req r u w ≡ ok (created, w', draw)
      → created.allocation.ext_code ≡ some code
      → IsKeyed env.uuid w.db
      → env.cache_now ≤ now
      → now < created.session.expires_at
      → normalize_e164 u none dialled ≡ ok created.allocation.proxy_e164
      → normalize_e164 u none caller_a ≡ ok a
      → normalize_e164 u none caller_b ≡ ok b
      → load_candidates c settings w'.db created.allocation.proxy_e164
          (party_hash c a settings.party_hash_secret)
          now
        ≡ ok cs_a
      → load_candidates c settings w'.db created.allocation.proxy_e164
          (party_hash c b settings.party_hash_secret)
          now
        ≡ ok cs_b
      → Answers u w' created code now nonce dialled caller_a side_a a b
        × Answers u w' created code now nonce dialled caller_b side_b b a
  shared_session_answers u w w' created code draw now nonce dialled caller_a caller_b cs_a cs_b na
        nb e coded keyed after in_time named from_a from_b rows_a rows_b =
      let answer =
        answered u w w' created code draw now nonce dialled na nb e coded keyed after in_time
          named in
      let k =
        made_in_db u w w' created code draw now nonce dialled na nb e coded keyed after in_time
          named in
      let id = id-created c settings env req a b w.db created w'.db code k coded in
      let fresh = fresh-created c settings env req a b w.db created w'.db code k coded keyed in
      (
        answer caller_a a b side_a cs_a
            (first-Side c settings env req sound a b nonce_a nonce_b apart k.got.db created.session
              k.got.allocation id fresh)
            from_a rows_a,
        answer caller_b b a side_b cs_b
            (second-Side c settings env req sound a b nonce_a nonce_b apart k.got.db created.session
              k.got.allocation id fresh)
            from_b rows_b,
      )

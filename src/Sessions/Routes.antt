-- ===== src/Sessions/Routes.antt =====
-- app/services/sessions.py and routing.py: an exclusive session is reachable from both sides.
use number_masking_service.Prelude.{
  ℕ, ◌≡◌, ◌≢◌, ◌∙◌, ◌<◌, sym, subst, ap, ap₂, none, some, List, [], ◌∷◌, arith, true, false, ◌&&◌,
  Text, text_eq_iff, text_eq_refl, All, All-mono, filter, filter-append, filter-none, ==_refl, ◌==◌,
  inl, inr, length,
}
use number_masking_service.Prelude.Sorts.{sort}
use number_masking_service.Errors.{ok}
use number_masking_service.Unicode.{Unicode}
use number_masking_service.Settings.{Settings}
use number_masking_service.Phone.{normalize_e164}
use number_masking_service.Crypto.{Primitives, party_hash, nonce_bytes}
use number_masking_service.Crypto.Sealing.{IsSound, decrypt-encrypt}
use number_masking_service.Db.{Db, Number, Session, SessionParty, Role, side_a, side_b, is_active}
use number_masking_service.Allocation.{Allocation, exclusive, extension, holds, mem}
use number_masking_service.Allocation.Extension.{allocate_number_cases}
use number_masking_service.Allocation.Exclusive.{IsFree, exclusive_number-IsFree}
use number_masking_service.Lookup.{
  Candidate, Row, is_caller, rows_of, other_party, parties_of, candidate_of, candidates_of,
  load_candidates,
}
use number_masking_service.Lookup.Added.{IsKeyed, added, NotHeld, live_rows-added}
use number_masking_service.Sessions.{
  Surroundings, SessionCreate, CreatedSession, create_in_db, new_session, new_party, new_parties,
  insert_session, hashes,
}
use number_masking_service.Sessions.Creation.{IsCreated, create_in_db-IsCreated}

module _ (c : Primitives) (settings : Settings) (env : Surroundings) (req : SessionCreate)
    (sound : IsSound c) (a b : Text) (nonce_a : length env.nonce_a ≡ nonce_bytes)
    (nonce_b : length env.nonce_b ≡ nonce_bytes)
    (apart : party_hash c a settings.party_hash_secret
      ≢ party_hash c b settings.party_hash_secret) where
  abbrev hash_a : Text
  hash_a = party_hash c a settings.party_hash_secret

  abbrev hash_b : Text
  hash_b = party_hash c b settings.party_hash_secret

  -- The row of the caller in the new session, from the two party rows that were written.
  callers_row : Text → Session → Allocation → List Row
  callers_row h s al =
      rows_of s
        (filter (λ p. is_caller h s p && p.is_active) (new_parties c settings env req al a b))

  row_a :
      (s : Session) (al : Allocation)
      → s.id ≡ env.uuid
      → callers_row hash_a s al ≡ record { session = s; role = side_a } ∷ []
  unfolding callers_row rows_of is_caller new_parties
  row_a s al e = ground (arith, text_eq_refl hash_a, text_eq_iff hash_b hash_a, apart)

  row_b :
      (s : Session) (al : Allocation)
      → s.id ≡ env.uuid
      → callers_row hash_b s al ≡ record { session = s; role = side_b } ∷ []
  unfolding callers_row rows_of is_caller new_parties
  row_b s al e = ground (arith, text_eq_refl hash_b, text_eq_iff hash_a hash_b, apart)

  unheld_a :
      (i : ℕ) (p : SessionParty)
      → holds (hashes c settings env req a b) i p ≡ false
      → NotHeld hash_a i p
  unfolding holds mem hashes
  unheld_a i p h = ground arith

  unheld_b :
      (i : ℕ) (p : SessionParty)
      → holds (hashes c settings env req a b) i p ≡ false
      → NotHeld hash_b i p
  unfolding holds mem hashes
  unheld_b i p h = ground arith

  -- The candidate that the other side of the new session is.
  to_side : Session → Role → Text → List Candidate
  to_side s role callee = candidate_of (record { session = s; role = role }) callee ∷ []

  module _ (db : Db) (s : Session) (al : Allocation) (id : s.id ≡ env.uuid)
      (fresh : All (λ p. (p.session_id == env.uuid) ≡ false) db.parties) where
    own_parties :
        parties_of (added db s (new_parties c settings env req al a b)) s.id
        ≡ new_parties c settings env req al a b
    unfolding parties_of new_parties
    own_parties =
        rw
          (
            filter-append (λ p. p.session_id == s.id) db.parties
                (new_parties c settings env req al a b),
            filter-none (λ p. p.session_id == s.id) db.parties
                (subst (λ i. All (λ p. (p.session_id == i) ≡ false) db.parties) (sym id) fresh),
          )
          (rw (id, ==_refl env.uuid))

    pub other_b :
        other_party
          (added db s (new_parties c settings env req al a b))
          (record { session = s; role = side_a })
        ≡ some (new_party c settings env req side_b env.nonce_b b al)
    unfolding other_party new_parties
    other_b = rw (own_parties)

    pub other_a :
        other_party
          (added db s (new_parties c settings env req al a b))
          (record { session = s; role = side_b })
        ≡ some (new_party c settings env req side_a env.nonce_a a al)
    unfolding other_party new_parties
    other_a = rw (own_parties)

    to_b :
        candidates_of c settings.encryption_key
          (added db s (new_parties c settings env req al a b))
          (record { session = s; role = side_a } ∷ [])
        ≡ ok (to_side s side_a b)
    unfolding candidates_of to_side new_party
    to_b =
        rw (other_b, candidates_of)
          (rw (decrypt-encrypt c sound env.nonce_b b settings.encryption_key nonce_b))

    to_a :
        candidates_of c settings.encryption_key
          (added db s (new_parties c settings env req al a b))
          (record { session = s; role = side_b } ∷ [])
        ≡ ok (to_side s side_b a)
    unfolding candidates_of to_side new_party
    to_a =
        rw (other_a, candidates_of)
          (rw (decrypt-encrypt c sound env.nonce_a a settings.encryption_key nonce_a))

  module _ (u : Unicode) (db : Db) (created : CreatedSession) (db' : Db) (draw now : ℕ)
      (normal_a : normalize_e164 u none req.party_a ≡ ok a)
      (normal_b : normalize_e164 u none req.party_b ≡ ok b)
      (success : create_in_db c settings env req u db ≡ ok (created, db', draw))
      (alone : created.allocation.mode ≡ exclusive) (keyed : IsKeyed env.uuid db)
      (in_time : now < created.session.expires_at) where
    -- The tables after the creation, and the number that was picked.
    record IsAdded : Type 0 where
      row : Number
      free : IsFree settings (hashes c settings env req a b) env.sql_now env.locked db row
      chosen : created.session.number_id ≡ row.id
      named : created.allocation.proxy_e164 ≡ row.e164
      id : created.session.id ≡ env.uuid
      live : is_active created.session.status ≡ true
      tables :
          db' ≡ added db created.session (new_parties c settings env req created.allocation a b)

    made : IsCreated c settings env req a b db created db'
    made =
        create_in_db-IsCreated c settings env req u a b db created db' draw normal_a normal_b
          success

    created-IsAdded : IsAdded
    unfolding new_session insert_session
    created-IsAdded =
        elim (allocate_number_cases c settings (hashes c settings env req a b) env.locked
          env.sql_now req.allow_extension_code db env.draw made.got made.allocated) [
            | inr (_, _, shared) ↦ absurd (
                two_modes (
                  sym alone ∙ ap (λ (x : Allocation). x.mode) made.same_allocation ∙ shared.shared))
            | inl (_, ex) ↦ record {
              row = ex.row;
              free =
                  exclusive_number-IsFree settings (hashes c settings env req a b) env.sql_now
                    env.locked db ex.row ex.free;
              chosen = ap (λ (x : Session). x.number_id) made.session ∙ ex.chosen;
              named = ap (λ (x : Allocation). x.proxy_e164) made.same_allocation ∙ ex.named;
              id = ap (λ (x : Session). x.id) made.session;
              live = ap (λ (x : Session). is_active x.status) made.session;
              tables =
                  made.stored
                  ∙ ap₂ (λ d al. added d created.session (new_parties c settings env req al a b))
                      ex.same_db (sym made.same_allocation);
            }
          ]
      where
        two_modes : exclusive ≡ extension → ⊥
        two_modes e = cc

    -- What a side of the session gets when it dials the number.
    reached :
        (h : Text) (role : Role) (callee : Text)
        → ((i : ℕ) (p : SessionParty)
            → holds (hashes c settings env req a b) i p ≡ false
            → NotHeld h i p)
        → callers_row h created.session created.allocation
          ≡ record { session = created.session; role = role } ∷ []
        → candidates_of c settings.encryption_key
            (added db created.session (new_parties c settings env req created.allocation a b))
            (record { session = created.session; role = role } ∷ [])
          ≡ ok (to_side created.session role callee)
        → load_candidates c settings db' created.allocation.proxy_e164 h now
          ≡ ok (to_side created.session role callee)
    unfolding load_candidates callers_row
    reached h role callee unheld one to =
        let k = created-IsAdded in
        let s = created.session in
        let al = created.allocation in
        let alone_here =
          live_rows-added db al.proxy_e164 h now s k.row (new_parties c settings env req al a b)
            (subst (λ i. IsKeyed i db) (sym k.id) keyed) k.free.pooled k.chosen k.named
            (subst (λ i. All (NotHeld h i) db.parties) (sym k.chosen)
              (All-mono _ (NotHeld h k.row.id) db.parties (unheld k.row.id) k.free.unheld))
            (unfold new_parties new_party in (sym k.id, (sym k.id, tt))) k.live in_time in
        rw (k.tables, alone_here, one) (unfold sort in to)

  -- After create_session gave a pair a number of its own, until the session expires a call of either
  -- party to the proxy number has one candidate, which is this session and the number of the other
  -- party. The hashes of the two numbers differ, the nonces have 12 bytes, the primitives do what
  -- they document, and the keys of the tables are unique.
  pub exclusive_session_connects :
      (u : Unicode) (db : Db) (created : CreatedSession) (db' : Db) (draw now : ℕ)
      → normalize_e164 u none req.party_a ≡ ok a
      → normalize_e164 u none req.party_b ≡ ok b
      → create_in_db c settings env req u db ≡ ok (created, db', draw)
      → created.allocation.mode ≡ exclusive
      → IsKeyed env.uuid db
      → now < created.session.expires_at
      → (load_candidates c settings db' created.allocation.proxy_e164 hash_a now
          ≡ ok (candidate_of (record { session = created.session; role = side_a }) b ∷ []))
        × (load_candidates c settings db' created.allocation.proxy_e164 hash_b now
            ≡ ok (candidate_of (record { session = created.session; role = side_b }) a ∷ []))
  unfolding to_side
  exclusive_session_connects u db created db' draw now na nb success alone keyed in_time =
      let k = created-IsAdded u db created db' draw now na nb success alone keyed in_time in
      let s = created.session in
      let al = created.allocation in
      let reach = reached u db created db' draw now na nb success alone keyed in_time in
      (
        reach hash_a side_a b unheld_a (row_a s al k.id) (to_b db s al k.id keyed.fresh_party),
        reach hash_b side_b a unheld_b (row_b s al k.id) (to_a db s al k.id keyed.fresh_party),
      )

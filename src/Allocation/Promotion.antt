-- ===== src/Allocation/Promotion.antt =====
-- app/services/allocation.py: what `_promote_conflicting_sessions` reaches.
use number_masking_service.Prelude.{
  ℕ, ◌≡◌, refl, subst, ap, In-any, In-filter, Option, none, some, List, [], ◌∷◌, ◌++◌, arith, true,
  false, Text, any, All, All-mono, All-zip, All-filter, All-filter_of, filter, is_some, text_eq,
  ◌&&◌, Bool, All-In, Option-cases, inl, inr, ◌==◌, In, ==_refl,
}
use number_masking_service.Errors.{ok, >>=-eq-ok}
use number_masking_service.Crypto.{Primitives}
use number_masking_service.Db.{Db, Session, is_active, mirrored, update_session, flush}
use number_masking_service.Db.Mirror.{any-update_session, All-update_session, flush-eq-ok}
use number_masking_service.Allocation.{
  lacks_code, mem, active_on, party_of, sessions_to_promote, assign_code, promote_rows,
  promote_conflicting_sessions, Promoted, fresh_code, generation_attempts,
}

-- The session is active on the number, and one of its parties is among those of the new session.
abbrev pub concerns : Db → ℕ → List Text → Session → Bool
concerns db i hashes s =
    (s.number_id == i && is_active s.status)
    && any db.parties (λ p. p.session_id == s.id && any hashes (text_eq p.party_hash))

-- Each session that shares the number with one of these parties has a PIN.
abbrev pub Reachable : Db → ℕ → List Text → Type 0
Reachable db i hashes =
    All (λ s. is_some s.ext_code ≡ true) (filter (concerns db i hashes) db.sessions)

-- Every session on the number that lacks a PIN it needs is still to be promoted.
abbrev pub Covered : ℕ → List Text → List Session → Db → Type 0
Covered i hashes rest db =
    All (λ s. lacks_code db i hashes s ≡ true → any rest (λ t. s.id == t.id) ≡ true) db.sessions

module _ (i : ℕ) (hashes : List Text) where
  same_lacks :
      (f : Session → Session) (k : ℕ) (db : Db) (s : Session)
      → lacks_code (update_session f k db) i hashes s ≡ lacks_code db i hashes s
  unfolding lacks_code party_of mirrored
  same_lacks f k db s = rw (any-update_session (party_of hashes s) (λ t x. refl) f k db)

  assigned_lacks :
      (code : Text) (db : Db) (s : Session) → lacks_code db i hashes (assign_code code s) ≡ false
  unfolding lacks_code assign_code active_on
  assigned_lacks code db s = ground arith

  -- One promotion takes its session off what is left to do.
  assign-Covered :
      (code : Text) (s : Session) (rest : List Session) (db : Db)
      → Covered i hashes (s ∷ rest) db
      → Covered i hashes rest (update_session (assign_code code) s.id db)
  assign-Covered code s rest db h =
      let db' = update_session (assign_code code) s.id db in
      All-update_session
        (λ x. lacks_code db' i hashes x ≡ true → any rest (λ t. x.id == t.id) ≡ true)
        (assign_code code) s.id db (unfold assign_code in λ x. refl)
        (λ x e. absurd (
          cc (
            e,
            same_lacks (assign_code code) s.id db (assign_code code x),
            assigned_lacks code db x,
          )))
        (All-mono _ _ db.sessions
          (λ x k n e. ground (arith, k (cc (e, same_lacks (assign_code code) s.id db x)), n)) h)

  promote_rows-Covered :
      (c : Primitives) (width : ℕ) (rows : List Session) (used : List Text) (done ids : List ℕ)
      (db : Db) (draw : ℕ) (p : Promoted)
      → Covered i hashes rows db
      → promote_rows c width rows used done db draw ≡ ok p
      → p.ids ≡ some ids
      → Covered i hashes [] p.db
  unfolding promote_rows
  promote_rows-Covered c width [] used done ids db draw p h e k =
      let same : record { ids = some done; db = db; draw = draw } ≡ p = cc e in
      subst (λ (q : Promoted). Covered i hashes [] q.db) same h
  promote_rows-Covered c width (s ∷ rest) used done ids db draw p h e k =
      let (got, _, e₁) = >>=-eq-ok (fresh_code c used width generation_attempts draw) _ e in
      elim (Option-cases got.0) [
        | inl n ↦
            let same : record { ids = none; db = db; draw = got.1 } ≡ p = cc (rw n at e₁) in
            let dry : ◌≡◌ {A = Option (List ℕ)} none p.ids = ap (λ (q : Promoted). q.ids) same in
            absurd (cc (dry, k))
        | inr (code, f) ↦
            let (db', g, e₂) =
              >>=-eq-ok (flush (update_session (assign_code code) s.id db)) _ (rw f at e₁) in
            let same = flush-eq-ok (update_session (assign_code code) s.id db) db' g in
            promote_rows-Covered c width rest (code ∷ used) (done ++ s.id ∷ []) ids db' got.1 p
              (subst (Covered i hashes rest) same (assign-Covered code s rest db h)) e₂ k
      ]

  start-Covered : (db : Db) → Covered i hashes (sessions_to_promote db i hashes) db
  unfolding sessions_to_promote
  start-Covered db =
      All-mono (λ s. In s db.sessions) _ db.sessions
        (λ s m e.
          In-any (λ t. s.id == t.id) _ s (In-filter (lacks_code db i hashes) db.sessions s m e)
            (==_refl s.id))
        (All-In db.sessions)

  reached_by_code :
      (db : Db) → All (λ s. lacks_code db i hashes s ≡ false) db.sessions → Reachable db i hashes
  unfolding lacks_code active_on party_of mem
  reached_by_code db h =
      let mine = filter (concerns db i hashes) db.sessions in
      All-mono _ _ mine (λ s k. ground (arith, k.0, k.1))
        (All-zip _ _ mine
          (All-filter_of (λ s. lacks_code db i hashes s ≡ false) (concerns db i hashes) db.sessions
            h)
          (All-filter (concerns db i hashes) db.sessions))

  -- When the promotion succeeds, every active session on the number that has one of the parties has a
  -- PIN, so none of them becomes unreachable.
  pub promotion_complete :
      (c : Primitives) (width : ℕ) (used : List Text) (ids : List ℕ) (db : Db) (draw : ℕ)
      (p : Promoted)
      → promote_conflicting_sessions c width i hashes used db draw ≡ ok p
      → p.ids ≡ some ids
      → Reachable p.db i hashes
  unfolding promote_conflicting_sessions
  promotion_complete c width used ids db draw p e k = reached_by_code p.db (
      All-mono _ _ p.db.sessions (λ s h. ground arith)
        (promote_rows-Covered c width (sessions_to_promote db i hashes) used [] ids db draw p
          (start-Covered db) e k))

-- ===== src/Lookup/Live.antt =====
-- app/services/routing.py: whom `_load_candidates` returns.
use number_masking_service.Prelude.{
  ℕ, ◌≡◌, ◌<◌, refl, subst, some, List, [], ◌∷◌, arith, true, ◌&&◌, Text, All, All-append, All-In,
  All-filter, All-filter_of, All-zip, All-at, find-In, find-eq-some, text_eq_iff, ==→eq, ◌==◌, not,
  Bool, ◌≢◌, In, filter, ltb, if_induction, &&-eq-true, Option-cases, inl, inr,
}
use number_masking_service.Prelude.Sorts.{All-sort}
use number_masking_service.Errors.{ok, >>=-eq-ok}
use number_masking_service.Settings.{Settings}
use number_masking_service.Crypto.{Primitives, decrypt_e164}
use number_masking_service.Db.{
  Db, Number, Role, side_a, side_b, same_role, find_number, Session, SessionParty, is_active,
}
use number_masking_service.Lookup.{
  Candidate, Row, on_proxy, is_caller, session_rows, join_rows, live_rows, rows_of, newest,
  other_party, parties_of, candidate_of, candidates_of, load_candidates,
}

-- A row of a session that is active, has not expired, carries the dialled number, and has the caller
-- among its active parties, in the role of the row.
pub record IsLive (db : Db) (proxy caller_hash : Text) (now : ℕ) (row : Row) : Type 0 where
  pub stored : In row.session db.sessions
  pub live : is_active row.session.status ≡ true
  pub in_time : now < row.session.expires_at
  pub number : Number
  pub carried : find_number db row.session.number_id ≡ some number
  pub dialled : number.e164 ≡ proxy
  pub party : SessionParty
  pub party_stored : In party db.parties
  pub own : party.session_id ≡ row.session.id
  pub caller : party.party_hash ≡ caller_hash
  pub party_live : party.is_active ≡ true
  pub role : party.role ≡ row.role

module _ (db : Db) (proxy caller_hash : Text) (now : ℕ) where
  abbrev Live : Row → Type 0
  Live = IsLive db proxy caller_hash now

  on_proxy_number :
      (s : Session)
      → on_proxy db proxy s ≡ true
      → (n : Number) × (find_number db s.number_id ≡ some n) × (n.e164 ≡ proxy)
  unfolding on_proxy
  on_proxy_number s o = elim (Option-cases (find_number db s.number_id)) [
    | inl e ↦ absurd (cc (rw (e, on_proxy) at o))
    | inr (n, e) ↦ (n, e, text_eq_iff n.e164 proxy (rw (e, on_proxy) at o))
  ]

  rows_of-Live :
      (s : Session) (ps : List SessionParty)
      → In s db.sessions
      → is_active s.status ≡ true
      → now < s.expires_at
      → on_proxy db proxy s ≡ true
      → All (λ p. In p db.parties × ((is_caller caller_hash s p && p.is_active) ≡ true)) ps
      → All Live (rows_of s ps)
  unfolding rows_of is_caller
  rows_of-Live s [] m a t o h = tt
  rows_of-Live s (p ∷ ps) m a t o h =
      let (n, found, named) = on_proxy_number s o in
      let (calls, live) = &&-eq-true _ _ h.0.1 in
      let (own, same) = &&-eq-true _ _ calls in
      (
        record {
          stored = m;
          live = a;
          in_time = t;
          number = n;
          carried = found;
          dialled = named;
          party = p;
          party_stored = h.0.0;
          own = ==→eq p.session_id s.id own;
          caller = text_eq_iff p.party_hash caller_hash same;
          party_live = live;
          role = refl;
        },
        rows_of-Live s ps m a t o h.1,
      )

  session_rows-Live :
      (s : Session) → In s db.sessions → All Live (session_rows db proxy caller_hash now s)
  unfolding session_rows
  session_rows-Live s m =
      let called : SessionParty → Bool = λ p. is_caller caller_hash s p && p.is_active in
      if_induction (All Live) (on_proxy db proxy s && (is_active s.status && ltb now s.expires_at))
        (λ h.
          rows_of-Live s (filter called db.parties) m (ground arith) (ground arith) (ground arith) (
            All-zip _ _ (filter called db.parties)
              (All-filter_of (λ p. In p db.parties) called db.parties (All-In db.parties))
              (All-filter called db.parties)))
        (λ h. tt)

  join_rows-Live :
      (ss : List Session)
      → All (λ s. In s db.sessions) ss
      → All Live (join_rows (session_rows db proxy caller_hash now) ss)
  unfolding join_rows
  join_rows-Live [] h = tt
  join_rows-Live (s ∷ ss) h =
      All-append Live (session_rows db proxy caller_hash now s) _ (session_rows-Live s h.0)
        (join_rows-Live ss h.1)

  pub live_rows-Live : All Live (live_rows db proxy caller_hash now)
  unfolding live_rows
  live_rows-Live = All-sort newest Live _ (join_rows-Live db.sessions (All-In db.sessions))

-- A candidate comes from a live row: its callee is the decrypted number of the party in the other
-- role of the session, and the rest of it is the session's.
pub record IsRoute (c : Primitives) (key : Text) (db : Db) (proxy caller_hash : Text) (now : ℕ)
    (candidate : Candidate) : Type 0 where
  pub row : Row
  pub row_live : IsLive db proxy caller_hash now row
  pub callee : SessionParty
  pub callee_stored : In callee db.parties
  pub callee_own : callee.session_id ≡ row.session.id
  pub opposite : callee.role ≢ row.role
  pub decrypted : decrypt_e164 c callee.party_e164_enc key ≡ ok candidate.callee_e164
  pub copied : candidate ≡ candidate_of row candidate.callee_e164

roles_apart : (a b : Role) → not (same_role a b) ≡ true → a ≢ b
roles_apart side_a side_a h = absurd (cc h)
roles_apart side_a side_b h = λ e. cc
roles_apart side_b side_a h = λ e. cc
roles_apart side_b side_b h = absurd (cc h)

other_party_lem :
    (db : Db) (row : Row) (p : SessionParty)
    → other_party db row ≡ some p
    → In p db.parties × (p.session_id ≡ row.session.id) × (p.role ≢ row.role)
unfolding other_party parties_of
other_party_lem db row p e =
    let mine : SessionParty → Bool = λ q. q.session_id == row.session.id in
    let other : SessionParty → Bool = λ q. not (same_role q.role row.role) in
    let found = find-In other (filter mine db.parties) p e in
    (
      All-at (λ q. In q db.parties) (filter mine db.parties) p
          (All-filter_of (λ q. In q db.parties) mine db.parties (All-In db.parties)) found,
      ==→eq p.session_id row.session.id (
          All-at (λ q. mine q ≡ true) (filter mine db.parties) p (All-filter mine db.parties)
            found),
      roles_apart p.role row.role (find-eq-some other (filter mine db.parties) e),
    )

module _ (c : Primitives) (key : Text) (db : Db) (proxy caller_hash : Text) (now : ℕ) where
  abbrev Route : Candidate → Type 0
  Route = IsRoute c key db proxy caller_hash now

  candidates_of-Route :
      (rows : List Row) (cs : List Candidate)
      → All (IsLive db proxy caller_hash now) rows
      → candidates_of c key db rows ≡ ok cs
      → All Route cs
  unfolding candidates_of
  candidates_of-Route [] cs h e =
      let empty : ◌≡◌ {A = List Candidate} [] cs = cc in subst (All Route) empty tt
  candidates_of-Route (row ∷ rows) cs h e = elim (Option-cases (other_party db row)) [
    | inl n ↦ candidates_of-Route rows cs h.1 (rw (n, candidates_of) at e)
    | inr (p, s) ↦
        let (callee, d, e₁) =
          >>=-eq-ok (decrypt_e164 c p.party_e164_enc key) _ (rw (s, candidates_of) at e) in
        let (others, r, e₂) = >>=-eq-ok (candidates_of c key db rows) _ e₁ in
        let split : candidate_of row callee ∷ others ≡ cs = cc e₂ in
        subst (All Route) split (
          record {
            row = row;
            row_live = h.0;
            callee = p;
            callee_stored = (other_party_lem db row p s).0;
            callee_own = (other_party_lem db row p s).1;
            opposite = (other_party_lem db row p s).2;
            decrypted = d;
            copied = refl;
          },
          candidates_of-Route rows others h.1 r,
        )
  ]

-- Every candidate of a call is a session that is active, has not expired, carries the
-- dialled number and has the caller among its active parties; its callee is the number of the party
-- in the other role.
pub load_candidates-IsRoute :
    (c : Primitives) (settings : Settings) (db : Db) (proxy caller_hash : Text) (now : ℕ)
    (cs : List Candidate)
    → load_candidates c settings db proxy caller_hash now ≡ ok cs
    → All (IsRoute c settings.encryption_key db proxy caller_hash now) cs
unfolding load_candidates
load_candidates-IsRoute c settings db proxy caller_hash now cs e =
    candidates_of-Route c settings.encryption_key db proxy caller_hash now
      (live_rows db proxy caller_hash now) cs (live_rows-Live db proxy caller_hash now) e

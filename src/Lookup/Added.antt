-- ===== src/Lookup/Added.antt =====
-- app/services/routing.py: whom a caller reaches after a session was added on a number on which the
-- caller held none.
use number_masking_service.Prelude.{
  ℕ, ◌≡◌, ◌∙◌, ◌<◌, refl, sym, ap, some, List, [], ◌∷◌, ◌++◌, append-nil, append_assoc, arith, true,
  false, ◌&&◌, Text, text_eq, text_eq_refl, All, All-mono, All-zip, All-append, In, filter,
  filter-append, filter-none, ==→eq, ◌==◌, inl, inr, find-In, find-eq-some, Option-cases, All-at,
  ltb, lt→ltb, &&-eq-true, if_induction,
}
use number_masking_service.Prelude.Sorts.{sort}
use number_masking_service.Db.{Db, Number, Session, SessionParty, is_active, find_number}
use number_masking_service.Lookup.{
  Row, on_proxy, is_caller, rows_of, session_rows, join_rows, live_rows, newest,
}

-- What the keys of the tables promise: ids and numbers are unique in the pool, a party row has the
-- number of its session, and the identifier of the new session is fresh.
pub record IsKeyed (uuid : ℕ) (db : Db) : Type 0 where
  pub by_id : All (λ n. find_number db n.id ≡ some n) db.numbers
  pub by_e164 :
      All (λ n. All (λ m. text_eq n.e164 m.e164 ≡ true → n.id ≡ m.id) db.numbers) db.numbers
  pub same_number :
      All
        (λ s. All (λ p. (p.session_id == s.id) ≡ true → p.number_id ≡ s.number_id) db.parties)
        db.sessions
  pub fresh_session : All (λ s. (s.id == uuid) ≡ false) db.sessions
  pub fresh_party : All (λ p. (p.session_id == uuid) ≡ false) db.parties

join_rows-none :
    (f : Session → List Row) (xs : List Session) → All (λ s. f s ≡ []) xs → join_rows f xs ≡ []
unfolding join_rows
join_rows-none f [] h = refl
join_rows-none f (s ∷ ss) h = rw (h.0) (join_rows-none f ss h.1)

join_rows-append :
    (f : Session → List Row) (xs ys : List Session)
    → join_rows f (xs ++ ys) ≡ join_rows f xs ++ join_rows f ys
unfolding join_rows
join_rows-append f [] ys = refl
join_rows-append f (s ∷ ss) ys = rw (join_rows-append f ss ys) (sym (append_assoc (f s) _ _))

abbrev pub added : Db → Session → List SessionParty → Db
added db s ps = record db { sessions = db.sessions ++ s ∷ []; parties = db.parties ++ ps }

-- The caller holds no active session on the number.
abbrev pub NotHeld : Text → ℕ → SessionParty → Type 0
NotHeld h i p = (p.number_id == i && (text_eq p.party_hash h && p.is_active)) ≡ false

module _ (db : Db) (proxy h : Text) (now : ℕ) (s : Session) (n : Number) (ps : List SessionParty)
    (keyed : IsKeyed s.id db) (pooled : In n db.numbers) (chosen : s.number_id ≡ n.id)
    (named : proxy ≡ n.e164) (unheld : All (NotHeld h s.number_id) db.parties)
    (own : All (λ p. p.session_id ≡ s.id) ps) (live : is_active s.status ≡ true)
    (in_time : now < s.expires_at) where
  same_number :
      (i : ℕ) (m : Number) → find_number db i ≡ some m → text_eq m.e164 proxy ≡ true → i ≡ n.id
  unfolding find_number
  same_number i m e t =
      let stored = find-In (λ x. x.id == i) db.numbers m e in
      let key = ==→eq m.id i (find-eq-some (λ x. x.id == i) db.numbers e) in
      let unique = All-at _ db.numbers m keyed.by_e164 stored in
      sym key ∙ All-at _ db.numbers n unique pooled (rw named at t)

  on_proxy_same : (x : Session) → on_proxy db proxy x ≡ true → x.number_id ≡ n.id
  unfolding on_proxy
  on_proxy_same x t = elim (Option-cases (find_number db x.number_id)) [
    | inl e ↦ absurd (cc (rw (e, on_proxy) at t))
    | inr (m, e) ↦ same_number x.number_id m e (rw (e, on_proxy) at t)
  ]

  old_party :
      (x : Session) (p : SessionParty)
      → x.number_id ≡ n.id
      → ((p.session_id == x.id) ≡ true → p.number_id ≡ x.number_id)
      → NotHeld h s.number_id p
      → (is_caller h x p && p.is_active) ≡ false
  unfolding is_caller
  old_party x p e k u = ground arith

  new_party :
      (x : Session) (p : SessionParty)
      → (x.id == s.id) ≡ false
      → p.session_id ≡ s.id
      → (is_caller h x p && p.is_active) ≡ false
  unfolding is_caller
  new_party x p e k = ground arith

  old_session :
      (x : Session)
      → All (λ p. (p.session_id == x.id) ≡ true → p.number_id ≡ x.number_id) db.parties
      → (x.id == s.id) ≡ false
      → session_rows (added db s ps) proxy h now x ≡ []
  unfolding session_rows on_proxy find_number
  old_session x k f =
      if_induction (λ r. r ≡ [])
        (on_proxy (added db s ps) proxy x && (is_active x.status && ltb now x.expires_at))
        (λ t.
          let same = on_proxy_same x (&&-eq-true _ _ t).0 in
          rw
            (filter-none (λ p. is_caller h x p && p.is_active) (db.parties ++ ps)
              (All-append _ db.parties ps
                (All-mono _ _ db.parties (λ p b. old_party x p same b.0 b.1)
                  (All-zip _ _ db.parties k unheld))
                (All-mono _ _ ps (λ p b. new_party x p f b) own)))
            (unfold rows_of in refl))
        (λ t. refl)

  here_now : on_proxy db proxy s ≡ true
  unfolding on_proxy
  here_now =
      let found : find_number db s.number_id ≡ some n =
        rw chosen (All-at _ db.numbers n keyed.by_id pooled) in
      rw (found, on_proxy, named, text_eq_refl n.e164)

  not_old :
      (p : SessionParty) → (p.session_id == s.id) ≡ false → (is_caller h s p && p.is_active) ≡ false
  unfolding is_caller
  not_old p f = ground arith

  new_session :
      session_rows (added db s ps) proxy h now s
      ≡ rows_of s (filter (λ p. is_caller h s p && p.is_active) ps)
  unfolding session_rows on_proxy find_number
  new_session =
      let caller = λ (p : SessionParty). is_caller h s p && p.is_active in
      let kept : filter caller (db.parties ++ ps) ≡ filter caller ps = rw (
        filter-append caller db.parties ps,
        filter-none caller db.parties (All-mono _ _ db.parties not_old keyed.fresh_party),
      ) in
      rw (here_now, live, lt→ltb now s.expires_at in_time) (ap (rows_of s) kept)

  -- The rows of the caller are those of the new session.
  pub live_rows-added :
      live_rows (added db s ps) proxy h now
      ≡ sort newest (rows_of s (filter (λ p. is_caller h s p && p.is_active) ps))
  unfolding live_rows
  live_rows-added =
      let rows = session_rows (added db s ps) proxy h now in
      let old : join_rows rows db.sessions ≡ [] = join_rows-none rows db.sessions (
        All-mono _ _ db.sessions (λ x b. old_session x b.0 b.1)
          (All-zip _ _ db.sessions keyed.same_number keyed.fresh_session)) in
      ap (sort newest)
        (rw (join_rows-append rows db.sessions (s ∷ []), old) (append-nil (rows s) ∙ new_session))

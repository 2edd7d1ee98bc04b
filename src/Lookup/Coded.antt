-- ===== src/Lookup/Coded.antt =====
-- app/services/routing.py: a session with a PIN among the sessions of a caller.
use number_masking_service.Prelude.{
  ℕ, ◌≡◌, ◌∙◌, ◌<◌, refl, sym, ap, subst, some, List, [], ◌∷◌, ◌++◌, arith, Bool, true, false, ◌&&◌,
  Text, text_eq, text_eq_refl, All, All-at, any-append, In, here, there, In-append, In-append_left,
  In-append_right, In-sort, In-filter, ◌==◌, ==_refl, ==→eq, inl, inr, find-In, find-eq-some,
  lt→ltb,
}
use number_masking_service.Db.{
  Db, Number, Session, SessionParty, is_active, find_number, codes_clash, distinct,
}
use number_masking_service.Lookup.{
  Row, on_proxy, is_caller, rows_of, session_rows, join_rows, live_rows, newest,
}
use number_masking_service.Lookup.Added.{added}
use number_masking_service.Lookup.Live.{IsLive}

distinct-last :
    (s : Session) (xs : List Session)
    → distinct codes_clash (xs ++ s ∷ []) ≡ true
    → All (λ x. codes_clash x s ≡ false) xs
unfolding distinct
distinct-last s [] h = tt
distinct-last s (x ∷ xs) h =
    (ground (arith, any-append (codes_clash x) xs (s ∷ [])), distinct-last s xs (ground arith))

In-join_rows :
    (f : Session → List Row) (s : Session) (row : Row) (xs : List Session)
    → In s xs
    → In row (f s)
    → In row (join_rows f xs)
unfolding join_rows
In-join_rows f s row [] m k = elim m [ ]
In-join_rows f s row (x ∷ xs) (here e) k =
    In-append_left (f x) (join_rows f xs) row (subst (λ y. In row (f y)) e k)
In-join_rows f s row (x ∷ xs) (there m) k =
    In-append_right (f x) (join_rows f xs) row (In-join_rows f s row xs m k)

In-rows_of :
    (s : Session) (p : SessionParty) (ps : List SessionParty)
    → In p ps
    → In (record { session = s; role = p.role }) (rows_of s ps)
unfolding rows_of
In-rows_of s p [] m = elim m [ ]
In-rows_of s p (q ∷ ps) (here e) =
    here (ap (λ (x : SessionParty). record { session = s; role = x.role }) e)
In-rows_of s p (q ∷ ps) (there m) = there (In-rows_of s p ps m)

-- A session with a PIN that was stored last, on a number of the pool.
pub record IsPlaced (db : Db) (proxy : Text) (now : ℕ) (s : Session) : Type 0 where
  pub number : Number
  pub found : find_number db s.number_id ≡ some number
  pub named : proxy ≡ number.e164
  pub by_e164 :
      All (λ n. All (λ m. text_eq n.e164 m.e164 ≡ true → n.id ≡ m.id) db.numbers) db.numbers
  pub live : is_active s.status ≡ true
  pub in_time : now < s.expires_at
  pub apart : distinct codes_clash (db.sessions ++ s ∷ []) ≡ true
  pub fresh_party : All (λ p. (p.session_id == s.id) ≡ false) db.parties

module _ (db : Db) (proxy : Text) (now : ℕ) (s : Session) (ps : List SessionParty)
    (placed : IsPlaced db proxy now s) where
  -- A party row of the session is one that was stored with it.
  pub own_party : (p : SessionParty) → In p (db.parties ++ ps) → p.session_id ≡ s.id → In p ps
  own_party p m own = elim (In-append db.parties ps p m) [
    | inl old ↦
        absurd (ground (arith, All-at _ db.parties p placed.fresh_party old, own, ==_refl s.id))
    | inr new ↦ new
  ]

  same_number :
      (x : Session) (n : Number)
      → find_number db x.number_id ≡ some n
      → n.e164 ≡ proxy
      → x.number_id ≡ s.number_id
  unfolding find_number
  same_number x n e named =
      let own = placed.number in
      let key : (i : ℕ) (m : Number) → find_number db i ≡ some m → m.id ≡ i =
        λ i m k. ==→eq m.id i (find-eq-some (λ y. y.id == i) db.numbers k) in
      let stored : (i : ℕ) (m : Number) → find_number db i ≡ some m → In m db.numbers =
        λ i m k. find-In (λ y. y.id == i) db.numbers m k in
      let unique =
        All-at _ db.numbers own (All-at _ db.numbers n placed.by_e164 (stored x.number_id n e))
          (stored s.number_id own placed.found) in
      sym (key x.number_id n e)
      ∙ unique (rw (named ∙ placed.named) (text_eq_refl own.e164))
      ∙ key s.number_id own placed.found

  clashes :
      (x : Session) (code : Text)
      → is_active x.status ≡ true
      → x.number_id ≡ s.number_id
      → x.ext_code ≡ some code
      → s.ext_code ≡ some code
      → codes_clash x s ≡ true
  unfolding codes_clash
  clashes x code live same a b =
      rw (live, placed.live, same, ==_refl s.number_id, a, b) (text_eq_refl code)

  -- No other live session on the number has its PIN.
  pub coded_row :
      (h code : Text) (row : Row)
      → s.ext_code ≡ some code
      → IsLive (added db s ps) proxy h now row
      → row.session.ext_code ≡ some code
      → row.session ≡ s
  unfolding find_number
  coded_row h code row own k e = elim (In-append db.sessions (s ∷ []) row.session k.stored) [
    | inr (here same) ↦ same
    | inr (there m) ↦ elim m [ ]
    | inl old ↦
        let same = same_number row.session k.number k.carried k.dialled in
        let clash = clashes row.session code k.live same e own in
        let none_clash =
          All-at _ db.sessions row.session (distinct-last s db.sessions placed.apart) old in
        absurd (cc (clash, none_clash))
  ]

  -- The session is among those of a caller who is an active party of it.
  pub caller_row :
      (h : Text) (q : SessionParty)
      → In q ps
      → q.session_id ≡ s.id
      → q.party_hash ≡ h
      → q.is_active ≡ true
      → In (record { session = s; role = q.role }) (live_rows (added db s ps) proxy h now)
  unfolding live_rows session_rows on_proxy is_caller find_number
  caller_row h q m own same active =
      let row : Row = record { session = s; role = q.role } in
      let rows = session_rows (added db s ps) proxy h now in
      let called : SessionParty → Bool = λ p. is_caller h s p && p.is_active in
      let passes : called q ≡ true = rw (own, ==_refl s.id, same, text_eq_refl h, active) refl in
      let mine =
        In-rows_of s q _
          (In-filter called (db.parties ++ ps) q (In-append_right db.parties ps q m) passes) in
      let here_now : on_proxy (added db s ps) proxy s ≡ true =
        rw (placed.found, on_proxy, placed.named) (text_eq_refl placed.number.e164) in
      let shown : In row (rows s) =
        rw (here_now, placed.live, lt→ltb now s.expires_at placed.in_time) mine in
      In-sort newest row (join_rows rows (db.sessions ++ s ∷ [])) (
        In-join_rows rows s row (db.sessions ++ s ∷ [])
          (In-append_right db.sessions (s ∷ []) s (here refl)) shown)

-- ===== src/Lifecycle/Ending.antt =====
-- app/services/sessions.py: what `close_session` leaves.
use number_masking_service.Prelude.{
  ℕ, ◌≡◌, ◌∙◌, sym, refl, ap, subst, some, arith, true, false, All, filter, Bool-cases, ◌⊎◌, inl,
  inr, ◌==◌,
}
use number_masking_service.Errors.{Result, ok, >>=-eq-ok, ok-injective, ◌>>=◌}
use number_masking_service.Db.{
  Db, Session, SessionStatus, is_active, find_session, update_session, trigger, flush,
}
use number_masking_service.Db.Mirror.{flush-eq-ok, trigger-released}
use number_masking_service.Db.Finding.{id-find_session, find-update_session}
use number_masking_service.Lifecycle.{
  get_session, end_session, update_number, mark_number_released, close_in_db,
}
use number_masking_service.Lifecycle.Extending.{get_session-found}

mark_number_released-sessions :
    (now i : ℕ) (db : Db) → (mark_number_released now i db).sessions ≡ db.sessions
unfolding mark_number_released update_number
mark_number_released-sessions now i db = ground arith

mark_number_released-parties :
    (now i : ℕ) (db : Db) → (mark_number_released now i db).parties ≡ db.parties
unfolding mark_number_released update_number
mark_number_released-parties now i db = ground arith

-- What a successful close did: the session was over already, or it is ended now.
pub record IsEnded (now i : ℕ) (status : SessionStatus) (db db' : Db) (old s : Session)
    : Type 0 where
  pub was_active : is_active old.status ≡ true
  pub ended : s ≡ end_session status now old
  pub tables :
      db' ≡ mark_number_released now old.number_id (update_session (end_session status now) i db)

-- What `close_session` does behind the flush.
abbrev after_flush : ℕ → SessionStatus → Session → Db → Result (Session × Db)
after_flush now status old d =
    ok (end_session status now old, mark_number_released now old.number_id d)

closing_now :
    (now i : ℕ) (status : SessionStatus) (db db' : Db) (old s : Session)
    → is_active old.status ≡ true
    → (flush (update_session (end_session status now) i db) >>= after_flush now status old)
      ≡ ok (s, db')
    → IsEnded now i status db db' old s
closing_now now i status db db' old s live e =
    let (d, f, e₁) = >>=-eq-ok (flush (update_session (end_session status now) i db)) _ e in
    let same = ok-injective e₁ in
    record {
      was_active = live;
      ended = sym (ap (λ (p : Session × Db). p.0) same);
      tables =
          sym (ap (λ (p : Session × Db). p.1) same)
          ∙ ap (mark_number_released now old.number_id)
              (sym (flush-eq-ok (update_session (end_session status now) i db) d f));
    }

close_in_db_cases :
    (now i : ℕ) (status : SessionStatus) (db db' : Db) (s : Session)
    → close_in_db now i status db ≡ ok (s, db')
    → (old : Session) × (find_session db i ≡ some old)
      × (((is_active old.status ≡ false) × (s ≡ old) × (db' ≡ db))
          ⊎ IsEnded now i status db db' old s)
unfolding close_in_db
close_in_db_cases now i status db db' s e =
    let (old, g, e₁) = >>=-eq-ok (get_session db i) _ e in
    let found = get_session-found db i old g in
    elim (Bool-cases (is_active old.status)) [
      | inl t ↦ (old, found, inr (closing_now now i status db db' old s t (rw t at e₁)))
      | inr f ↦
          let same : ok (old, db) ≡ ok (s, db') = rw f at e₁ in
          let pair = ok-injective same in
          (
            old,
            found,
            inl (
              f,
              sym (ap (λ (p : Session × Db). p.0) pair),
              sym (ap (λ (p : Session × Db). p.1) pair),
            ),
          )
    ]

-- Where the session is over, closing it returns it, and changes nothing.
close_over :
    (later i : ℕ) (status : SessionStatus) (db : Db) (s : Session)
    → find_session db i ≡ some s
    → is_active s.status ≡ false
    → close_in_db later i status db ≡ ok (s, db)
unfolding close_in_db get_session
close_over later i status db s e f = rw (close_in_db, get_session, e, f)

ended-found :
    (now i : ℕ) (status : SessionStatus) (db : Db) (old : Session)
    → find_session db i ≡ some old
    → find_session
        (mark_number_released now old.number_id (update_session (end_session status now) i db))
        i
      ≡ some (end_session status now old)
unfolding find_session
ended-found now i status db old e =
    rw
      (mark_number_released-sessions now old.number_id
        (update_session (end_session status now) i db))
      (find-update_session (end_session status now) i db old (unfold end_session in λ x. refl) e)

-- Closing a session a second time returns it as the first time did, and changes nothing, whatever
-- the time and the status of the second close are.
pub close_in_db_twice :
    (now later i : ℕ) (status status' : SessionStatus) (db db' : Db) (s : Session)
    → is_active status ≡ false
    → close_in_db now i status db ≡ ok (s, db')
    → close_in_db later i status' db' ≡ ok (s, db')
unfolding end_session
close_in_db_twice now later i status status' db db' s over e =
    let (old, found, cases) = close_in_db_cases now i status db db' s e in
    elim cases [
      | inl (f, same, kept) ↦ rw (same, kept) (close_over later i status' db old found f)
      | inr ended ↦
          rw (ended.ended, ended.tables)
            (close_over later i status'
              (mark_number_released now old.number_id
                (update_session (end_session status now) i db))
              (end_session status now old) (ended-found now i status db old found) over)
    ]

-- Closing an active session releases both party rows of it: none of them is active any more, so no
-- call is routed by them.
pub close_in_db_releases :
    (now i : ℕ) (status : SessionStatus) (db db' : Db) (old s : Session)
    → is_active status ≡ false
    → find_session db i ≡ some old
    → is_active old.status ≡ true
    → close_in_db now i status db ≡ ok (s, db')
    → All (λ p. p.is_active ≡ false) (filter (λ p. p.session_id == i) db'.parties)
unfolding end_session update_session
close_in_db_releases now i status db db' old s over found live e =
    let (row, stored, cases) = close_in_db_cases now i status db db' s e in
    let same : old ≡ row = cc (found, stored) in
    elim cases [
      | inl (f, _, _) ↦ absurd (cc (f, same, live))
      | inr ended ↦
          let db₁ = update_session (end_session status now) i db in
          let key : old.id ≡ i = id-find_session db i old found in
          rw
            (
              ended.tables,
              mark_number_released-parties now row.number_id db₁,
              found,
              update_session,
            )
            (subst
              (λ j.
                All (λ p. p.is_active ≡ false)
                  (filter (λ p. p.session_id == j)
                    (trigger old (end_session status now old) db.parties)))
              key (trigger-released old (end_session status now old) db.parties live over))
    ]

-- ===== src/Lifecycle/Sweeping.antt =====
-- app/services/sessions.py: what `expire_due_sessions` ends.
use number_masking_service.Prelude.{
  ℕ, ◌≡◌, ◌≤◌, sym, ap, List, arith, Bool, true, leb, filter, length, map, length-take-le, All,
  All-take, All-filter, All-filter_of, All-In, All-mono, In,
}
use number_masking_service.Prelude.Sorts.{sort, All-sort}
use number_masking_service.Errors.{ok, >>=-eq-ok, ok-injective}
use number_masking_service.Db.{Db, Session, is_active, expired, flush}
use number_masking_service.Lifecycle.{due, due_sessions, expire_each, end_session, expire_in_db}

-- One sweep: at most `limit` stored sessions, active and past their expiry, which are returned as
-- they are after it.
pub record IsSweep (now limit : ℕ) (db : Db) (rows : List Session) : Type 0 where
  pub picked : List Session
  pub bounded : length picked ≤ limit
  pub stored : All (λ s. In s db.sessions) picked
  pub overdue : All (λ s. (is_active s.status ≡ true) × (s.expires_at ≤ now)) picked
  pub ended : rows ≡ map (end_session expired now) picked

due_sessions-All :
    (P : Session → Type 0) (now limit : ℕ) (db : Db)
    → All P (filter (due now) db.sessions)
    → All P (due_sessions now limit db)
unfolding due_sessions
due_sessions-All P now limit db h =
    let earlier : Session → Session → Bool = λ a b. leb a.expires_at b.expires_at in
    let rows = filter (due now) db.sessions in
    All-take P limit (sort earlier rows) (All-sort earlier P rows h)

due_overdue :
    (now : ℕ) (s : Session) → due now s ≡ true → (is_active s.status ≡ true) × (s.expires_at ≤ now)
unfolding due
due_overdue now s h = (ground arith, ground arith)

-- A sweep that succeeds expires at most as many sessions as its limit, each of which was stored, was
-- active and was past its expiry, and returns them expired at the time of the sweep.
pub expire_in_db-IsSweep :
    (now limit : ℕ) (db db' : Db) (rows : List Session)
    → expire_in_db now limit db ≡ ok (rows, db')
    → IsSweep now limit db rows
unfolding expire_in_db due_sessions
expire_in_db-IsSweep now limit db db' rows e =
    let picked = due_sessions now limit db in
    let overdue = filter (due now) db.sessions in
    let (d, _, e₁) = >>=-eq-ok (flush (expire_each now picked db)) _ e in
    record {
      picked = picked;
      bounded = length-take-le limit (sort (λ a b. leb a.expires_at b.expires_at) overdue);
      stored =
          due_sessions-All _ now limit db
            (All-filter_of (λ s. In s db.sessions) (due now) db.sessions (All-In db.sessions));
      overdue =
          due_sessions-All _ now limit db
            (All-mono _ _ overdue (λ s h. due_overdue now s h) (All-filter (due now) db.sessions));
      ended = sym (ap (λ (p : List Session × Db). p.0) (ok-injective e₁));
    }

-- ===== src/Background/Rounds.antt =====
-- app/background.py: what the loops report, and what they leave alone.
use number_masking_service.Prelude.{
  ℕ, ◌≡◌, ◌≤◌, ap, sym, refl, subst, List, [], ◌∷◌, true, Bool, All, All-mono, All-map, All-zip,
  All-filter, All-filter_of, All-In, All-at, In, In-filter, filter, map, inl, inr, if_induction,
}
use number_masking_service.Errors.{ok, Result-cases, >>=-eq-ok, ok-injective}
use number_masking_service.Settings.{Settings, webhooks_enabled}
use number_masking_service.Db.{Db, Session, is_active, expired}
use number_masking_service.Cache.{Redis}
use number_masking_service.Sessions.{World}
use number_masking_service.Lifecycle.{
  expire_due_sessions, expire_in_db, expiry_sweep_limit, purge_old_records, end_session,
}
use number_masking_service.Lifecycle.Sweeping.{IsSweep, expire_in_db-IsSweep}
use number_masking_service.Lifecycle.Retention.{purge_old_records_keeps}
use number_masking_service.Background.{ExpiredEvent, event_of, sent, expiry_round, retention_loop}

-- An event of a session that was stored, active and past its expiry when the round began.
pub record IsOverdue (now : ℕ) (db : Db) (event : ExpiredEvent) : Type 0 where
  pub session : Session
  pub stored : In session db.sessions
  pub live : is_active session.status ≡ true
  pub past : session.expires_at ≤ now
  pub named : event.session_id ≡ session.id

events-IsOverdue :
    (now : ℕ) (db db' : Db) (rows : List Session)
    → IsSweep now expiry_sweep_limit db rows
    → All (IsOverdue now db) (map (event_of db') rows)
unfolding event_of end_session
events-IsOverdue now db db' rows sweep =
    let each : (s : Session)
        → In s db.sessions × ((is_active s.status ≡ true) × (s.expires_at ≤ now))
        → IsOverdue now db (event_of db' (end_session expired now s)) =
      λ s h. record { session = s; stored = h.0; live = h.1.0; past = h.1.1; named = refl } in
    let picked = sweep.picked in
    subst (λ xs. All (IsOverdue now db) (map (event_of db') xs)) (sym sweep.ended)
      (All-map (IsOverdue now db) (event_of db') (map (end_session expired now) picked) (
        All-map (λ x. IsOverdue now db (event_of db' x)) (end_session expired now) picked
          (All-mono _ _ picked each (All-zip _ _ picked sweep.stored sweep.overdue))))

expired-IsSweep :
    (r : Redis) (now : ℕ) (w w' : World r) (rows : List Session)
    → expire_due_sessions r now expiry_sweep_limit w ≡ ok (rows, w')
    → IsSweep now expiry_sweep_limit w.db rows
unfolding expire_due_sessions
expired-IsSweep r now w w' rows e =
    let ((rows', db), k, e₁) = >>=-eq-ok (expire_in_db now expiry_sweep_limit w.db) _ e in
    let same : rows' ≡ rows = ap (λ (p : List Session × World r). p.0) (ok-injective e₁) in
    subst (IsSweep now expiry_sweep_limit w.db) same
      (expire_in_db-IsSweep now expiry_sweep_limit w.db db rows' k)

-- Every event that a round of the expiry loop sends names a session that was stored, active and past
-- its expiry when the round began.
pub expiry_round-IsOverdue :
    (r : Redis) (settings : Settings) (now : ℕ) (w : World r)
    → All (IsOverdue now w.db) (expiry_round r settings now w).0
unfolding expiry_round sent
expiry_round-IsOverdue r settings now w =
    elim (Result-cases (expire_due_sessions r now expiry_sweep_limit w)) [
      | inl (e, bad) ↦ rw (bad, expiry_round) tt
      | inr ((rows, w'), good) ↦
          let sweep = expired-IsSweep r now w w' rows good in
          rw (good, expiry_round)
            (if_induction (All (IsOverdue now w.db)) (webhooks_enabled settings)
              (λ k. events-IsOverdue now w.db w'.db rows sweep) (λ k. tt))
    ]

-- However often the retention loop runs, and whenever, every active session is kept as it is.
pub retention_loop-keeps :
    (settings : Settings) (times : List ℕ) (db : Db)
    → All
        (λ s. In s (retention_loop settings times db).sessions)
        (filter (λ s. is_active s.status) db.sessions)
unfolding retention_loop
retention_loop-keeps settings [] db =
    All-filter_of (λ s. In s db.sessions) (λ s. is_active s.status) db.sessions (All-In db.sessions)
retention_loop-keeps settings (now ∷ times) db =
    let live : Session → Bool = λ s. is_active s.status in
    let purged = (purge_old_records settings now db).0 in
    All-mono _ _ (filter live db.sessions)
      (λ s h.
        All-at (λ x. In x (retention_loop settings times purged).sessions)
          (filter live purged.sessions) s (retention_loop-keeps settings times purged)
          (In-filter live purged.sessions s h.0 h.1))
      (All-zip _ _ (filter live db.sessions) (purge_old_records_keeps settings now db).2
        (All-filter live db.sessions))

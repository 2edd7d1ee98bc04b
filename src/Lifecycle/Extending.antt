-- ===== src/Lifecycle/Extending.antt =====
-- app/services/sessions.py: what `extend_session` accepts.
use number_masking_service.Prelude.{ℕ, ◌≡◌, some, inl, inr, Option-cases}
use number_masking_service.Errors.{ok}
use number_masking_service.Settings.{Settings}
use number_masking_service.Db.{Db, Session, find_session}
use number_masking_service.Lifecycle.{get_session}

pub get_session-found :
    (db : Db) (i : ℕ) (s : Session) → get_session db i ≡ ok s → find_session db i ≡ some s
unfolding get_session
get_session-found db i s e = elim (Option-cases (find_session db i)) [
  | inl n ↦ absurd (cc (rw (n, get_session) at e))
  | inr (x, f) ↦ let same : x ≡ s = cc (rw (f, get_session) at e) in rw (← same) f
]

-- ===== src/Lifecycle.antt =====
-- app/services/sessions.py: reading, extending, closing, expiring and purging sessions. `now` is
-- the one reading of the clock of an operation.
pub mod Extending
pub mod Ending
pub mod Retention
pub mod Sweeping
pub mod Unreachable
use number_masking_service.Prelude.{
  ℕ, ◌+◌, ◌*◌, Option, none, some, List, [], ◌∷◌, Bool, true, false, not, ◌&&◌, Text, count, filter,
  length, take, map, ltb, leb, ◌==◌, if◌then◌else◌,
}
use number_masking_service.Prelude.Sorts.{sort}
use number_masking_service.Errors.{
  Result, ok, err, validation_error, session_not_found_error, session_not_active_error, ◌>>=◌, ◌>>◌,
}
use number_masking_service.Settings.{Settings, ℤ, second, day}
use number_masking_service.Journal.{Call}
use number_masking_service.Db.{
  Db, Number, Session, SessionStatus, expired, is_active, find_session, find_number, update_session,
  flush,
}
use number_masking_service.Allocation.{active_on}
use number_masking_service.Cache.{Redis, invalidate_number}
use number_masking_service.Sessions.{World, check_ttl}

unfoldable pub get_session : Db → ℕ → Result Session
get_session db i = elim (find_session db i) [ none ↦ err session_not_found_error | some s ↦ ok s ]

-- `number_e164`.
unfoldable pub number_e164 : Db → ℕ → Text
number_e164 db i = elim (find_number db i) [ none ↦ [] | some n ↦ n.e164 ]

replace_number : Number → List Number → List Number
replace_number n [] = []
replace_number n (x ∷ xs) =
    let rest = replace_number n xs in if x.id == n.id then n ∷ rest else x ∷ rest

unfoldable pub update_number : (Number → Number) → ℕ → Db → Db
unfolding replace_number
update_number f i db = elim (find_number db i) [
  | none ↦ db
  | some n ↦ record db { numbers = replace_number (f n) db.numbers }
]

-- `_mark_number_released`.
unfoldable pub mark_number_released : ℕ → ℕ → Db → Db
unfolding update_number active_on
mark_number_released now i db =
    if count (active_on i) db.sessions == 0
    then update_number (λ n. record n { released_at = some now }) i db
    else db

unfoldable pub end_session : SessionStatus → ℕ → Session → Session
end_session status now s = record s { status = status; closed_at = some now }

unfoldable pub extended : ℕ → Session → Session
extended expires_at s = record s { expires_at = expires_at }

-- The new expiry of `extend_session`; an explicit one comes first.
unfoldable pub new_expiry : Settings → ℕ → Option ℤ → Option ℕ → Result ℕ
new_expiry settings now ttl_seconds (some t) = ok t
new_expiry settings now none none = err validation_error
new_expiry settings now (some ttl) none = do
  seconds ← check_ttl settings.max_ttl_seconds ttl
  ok (now + seconds * second)

unfoldable pub check_active : Session → Result (Unit {0})
check_active s = if is_active s.status then ok tt else err session_not_active_error

unfoldable pub check_future : ℕ → ℕ → Result (Unit {0})
check_future now t = if leb t now then err validation_error else ok tt

-- `extend_session` on the tables; `now` is the one reading of the clock.
unfoldable pub extend_in_db : Settings → ℕ → ℕ → Option ℤ → Option ℕ → Db → Result (Session × Db)
unfolding get_session new_expiry check_active check_future extended
extend_in_db settings now i ttl_seconds expires_at db = do
  s ← get_session db i
  check_active s
  t ← new_expiry settings now ttl_seconds expires_at
  check_future now t
  db' ← flush (update_session (extended t) i db)
  ok (extended t s, db')

-- `close_session` on the tables.
unfoldable pub close_in_db : ℕ → ℕ → SessionStatus → Db → Result (Session × Db)
unfolding get_session end_session mark_number_released
close_in_db now i status db = do
  s ← get_session db i
  let closing = do
    db' ← flush (update_session (end_session status now) i db)
    ok (end_session status now s, mark_number_released now s.number_id db')
  if is_active s.status then closing else ok (s, db)

unfoldable pub due : ℕ → Session → Bool
due now s = is_active s.status && leb s.expires_at now

abbrev pub expiry_sweep_limit : ℕ
expiry_sweep_limit = 500

-- The rows that one sweep takes: the first to expire.
unfoldable pub due_sessions : ℕ → ℕ → Db → List Session
unfolding due
due_sessions now limit db =
    take limit (sort (λ a b. leb a.expires_at b.expires_at) (filter (due now) db.sessions))

unfoldable pub expire_each : ℕ → List Session → Db → Db
unfolding end_session
expire_each now [] db = db
expire_each now (s ∷ ss) db = expire_each now ss (update_session (end_session expired now) s.id db)

unfoldable pub release_each : ℕ → List Session → Db → Db
release_each now [] db = db
release_each now (s ∷ ss) db = release_each now ss (mark_number_released now s.number_id db)

-- `expire_due_sessions` on the tables; it returns the expired rows.
unfoldable pub expire_in_db : ℕ → ℕ → Db → Result (List Session × Db)
unfolding due_sessions expire_each release_each
expire_in_db now limit db =
    let rows = due_sessions now limit db in
    do
      db' ← flush (expire_each now rows db)
      ok (map (end_session expired now) rows, release_each now rows db')

-- What an operation returns with the tables, and with the cache entries of the number dropped.
invalidated : (r : Redis) → ℕ → World r → ℕ → Session × Db → Session × World r
invalidated r now w number_id (s, db) =
    (s, record { db = db; cache = invalidate_number r w.cache now (number_e164 db number_id) })

unfoldable pub extend_session :
    (r : Redis) → Settings → ℕ → ℕ → Option ℤ → Option ℕ → World r → Result (Session × World r)
unfolding extend_in_db invalidated
extend_session r settings now i ttl_seconds expires_at w = do
  (s, db) ← extend_in_db settings now i ttl_seconds expires_at w.db
  ok (invalidated r now w s.number_id (s, db))

-- A session that is not active any more is returned, and its cached routes are left.
unfoldable pub close_session :
    (r : Redis) → ℕ → ℕ → SessionStatus → World r → Result (Session × World r)
unfolding close_in_db invalidated
close_session r now i status w = do
  old ← get_session w.db i
  (s, db) ← close_in_db now i status w.db
  ok (
      if is_active old.status
      then invalidated r now w s.number_id (s, db)
      else (s, record w { db = db }))

invalidate_each : (r : Redis) → ℕ → Db → List Session → r.Store → r.Store
invalidate_each r now db [] cache = cache
invalidate_each r now db (s ∷ ss) cache =
    invalidate_each r now db ss (invalidate_number r cache now (number_e164 db s.number_id))

unfoldable pub expire_due_sessions : (r : Redis) → ℕ → ℕ → World r → Result (List Session × World r)
unfolding expire_in_db invalidate_each
expire_due_sessions r now limit w = do
  (rows, db) ← expire_in_db now limit w.db
  ok (rows, record { db = db; cache = invalidate_each r now db rows w.cache })

-- `started_at < cutoff`, where the cutoff lies `window` before now.
unfoldable pub old_call : ℕ → ℕ → Call → Bool
old_call now window c = ltb (c.started_at + window) now

unfoldable pub old_session : ℕ → ℕ → Session → Bool
old_session now window s =
    not (is_active s.status) && (elim s.closed_at [ none ↦ false | some t ↦ ltb (t + window) now ])

in_sessions : List Session → ℕ → Bool
in_sessions [] i = false
in_sessions (s ∷ ss) i = if s.id == i then true else in_sessions ss i

-- `ON DELETE SET NULL` of `calls.session_id`.
detach : List Session → Call → Call
detach gone c = elim c.session_id [
  | none ↦ c
  | some i ↦ if in_sessions gone i then record c { session_id = none } else c
]

-- `purge_old_records`: the tables, and how many calls and sessions were deleted. The parties of a
-- deleted session go with it (`ON DELETE CASCADE`).
unfoldable pub purge_old_records : Settings → ℕ → Db → Db × ℕ × ℕ
unfolding old_call old_session detach in_sessions
purge_old_records settings now db =
    let call_window = settings.call_retention_days * day in
    let session_window = settings.closed_session_retention_days * day in
    let gone = filter (old_session now session_window) db.sessions in
    let kept_calls = filter (λ c. not (old_call now call_window c)) db.calls.rows in
    (
      record db {
        calls = record db.calls { rows = map (detach gone) kept_calls };
        sessions = filter (λ s. not (old_session now session_window s)) db.sessions;
        parties = filter (λ p. not (in_sessions gone p.session_id)) db.parties;
      },
      count (old_call now call_window) db.calls.rows,
      length gone,
    )

-- ===== src/Background.antt =====
-- app/background.py: the two loops of maintenance, as rounds at the times at which they run. A round
-- that raises is logged, and its transaction is rolled back; an exception of `emit` and the
-- cancellation of a loop are not modelled.
pub mod Rounds
use number_masking_service.Prelude.{ℕ, List, [], ◌∷◌, ◌++◌, Text, map, if◌then◌else◌}
use number_masking_service.Errors.{Result, ok, err}
use number_masking_service.Settings.{Settings, webhooks_enabled}
use number_masking_service.Db.{Db, Session}
use number_masking_service.Cache.{Redis}
use number_masking_service.Sessions.{World}
use number_masking_service.Lifecycle.{
  expire_due_sessions, expiry_sweep_limit, purge_old_records, number_e164,
}

-- The payload of "session.expired".
pub record ExpiredEvent : Type 0 where
  pub session_id : ℕ
  pub proxy_number : Text

unfoldable pub event_of : Db → Session → ExpiredEvent
event_of db s = record { session_id = s.id; proxy_number = number_e164 db s.number_id }

-- What is sent of the events.
unfoldable pub sent : Settings → List ExpiredEvent → List ExpiredEvent
sent settings events = if webhooks_enabled settings then events else []

-- One round of `expiry_loop`.
unfoldable pub expiry_round : (r : Redis) → Settings → ℕ → World r → List ExpiredEvent × World r
unfolding event_of sent
expiry_round r settings now w = elim (expire_due_sessions r now expiry_sweep_limit w) [
  | err e ↦ ([], w)
  | ok (rows, w') ↦ (sent settings (map (event_of w'.db) rows), w')
]

-- `expiry_loop`, until it is cancelled.
unfoldable pub expiry_loop : (r : Redis) → Settings → List ℕ → World r → List ExpiredEvent × World r
unfolding expiry_round
expiry_loop r settings [] w = ([], w)
expiry_loop r settings (now ∷ times) w =
    let (events, w') = expiry_round r settings now w in
    let (later, w'') = expiry_loop r settings times w' in (events ++ later, w'')

-- `retention_loop`, until it is cancelled; a purge does not raise by itself.
unfoldable pub retention_loop : Settings → List ℕ → Db → Db
retention_loop settings [] db = db
retention_loop settings (now ∷ times) db =
    retention_loop settings times (purge_old_records settings now db).0

-- ===== src/Api/Metrics.antt =====
-- app/api/routers/health.py: `health`, and the figures and lines of `metrics`. The order in which the
-- database gives the groups of `GROUP BY status` is an argument, and so is Python's `:.3f`, on
-- microseconds.
pub mod Agreement
use number_masking_service.Prelude.{
  ℕ, ◌+◌, ◌-◌, Option, none, some, List, [], ◌∷◌, ◌++◌, Bool, true, false, Text, codes, map, filter,
  count, ltb, leb, is_some, String, if◌then◌else◌,
}
use number_masking_service.Settings.{Settings, ℤ, pos, negsuc}
use number_masking_service.Crypto.{decimal}
use number_masking_service.Journal.{Call, CallStatus}
use number_masking_service.Db.{Db, is_active}
use number_masking_service.Numbers.{PoolStats, pool_stats}

pub record HealthOut : Type 0 where
  pub status : Text
  pub version : Text

unfoldable pub health : Text → HealthOut
health version = record { status = codes "ok"; version = version }

-- A bound of the histogram: as it is printed, and in microseconds.
abbrev pub setup_buckets : List (String × ℕ)
setup_buckets =
    ("0.5", 500_000)
    ∷ ("1.0", 1_000_000)
    ∷ ("2.0", 2_000_000)
    ∷ ("5.0", 5_000_000)
    ∷ ("10.0", 10_000_000)
    ∷ ("30.0", 30_000_000)
    ∷ []

unfoldable pub same_status : CallStatus → CallStatus → Bool
same_status CallStatus.in_progress CallStatus.in_progress = true
same_status CallStatus.answered CallStatus.answered = true
same_status CallStatus.no_answer CallStatus.no_answer = true
same_status CallStatus.busy CallStatus.busy = true
same_status CallStatus.rejected CallStatus.rejected = true
same_status CallStatus.expired CallStatus.expired = true
same_status CallStatus.unknown_caller CallStatus.unknown_caller = true
same_status CallStatus.failed CallStatus.failed = true
same_status a b = false

unfoldable pub call_status_text : CallStatus → Text
call_status_text CallStatus.in_progress = codes "in_progress"
call_status_text CallStatus.answered = codes "answered"
call_status_text CallStatus.no_answer = codes "no_answer"
call_status_text CallStatus.busy = codes "busy"
call_status_text CallStatus.rejected = codes "rejected"
call_status_text CallStatus.expired = codes "expired"
call_status_text CallStatus.unknown_caller = codes "unknown_caller"
call_status_text CallStatus.failed = codes "failed"

unfoldable pub with_status : List Call → CallStatus → CallStatus × ℕ
with_status rows st = (st, count (λ (c : Call). same_status st c.status) rows)

-- `SELECT status, count(*) ... GROUP BY status`: a status that no row has gives no group.
unfoldable pub call_rows : List CallStatus → List Call → List (CallStatus × ℕ)
unfolding with_status
call_rows order rows = filter (λ (g : CallStatus × ℕ). ltb 0 g.1) (map (with_status rows) order)

-- `setup_seconds <= bound`, of a call that was answered.
unfoldable pub set_up_within : ℕ → Call → Bool
set_up_within bound c = elim c.answered_at [ none ↦ false | some t ↦ leb t (c.started_at + bound) ]

unfoldable pub bucket : List Call → String × ℕ → ℕ
unfolding set_up_within
bucket rows (name, bound) = count (set_up_within bound) rows

unfoldable pub setup_count : List Call → ℕ
setup_count rows = count (λ (c : Call). is_some c.answered_at) rows

abbrev sub_ℕ : ℕ → ℕ → ℤ
sub_ℕ a b = if leb b a then pos (a - b) else negsuc (b - a - 1)

answered_sum : List Call → ℕ
answered_sum [] = 0
answered_sum (c ∷ rows) =
    let rest = answered_sum rows in elim c.answered_at [ none ↦ rest | some t ↦ t + rest ]

started_sum : List Call → ℕ
started_sum [] = 0
started_sum (c ∷ rows) =
    let rest = started_sum rows in elim c.answered_at [ none ↦ rest | some t ↦ c.started_at + rest ]

-- `sum(answered_at - started_at)`, in microseconds.
unfoldable pub setup_sum : List Call → ℤ
unfolding answered_sum started_sum
setup_sum rows = sub_ℕ (answered_sum rows) (started_sum rows)

-- What `metrics` reads of the tables and of the Stasis application.
pub record Figures : Type 0 where
  pub active_sessions : ℕ
  pub pool : PoolStats
  pub calls : List (CallStatus × ℕ)
  pub buckets : List ℕ
  pub setups : ℕ
  pub setup_time : ℤ
  pub active_calls : ℕ
  pub ws_connected : Bool

unfoldable pub figures : Settings → ℕ → List CallStatus → ℕ → Bool → Db → Figures
unfolding call_rows bucket setup_count setup_sum
figures settings now order active_calls ws_connected db = record {
  active_sessions = count (λ s. is_active s.status) db.sessions;
  pool = pool_stats settings now db;
  calls = call_rows order db.calls.rows;
  buckets = map (bucket db.calls.rows) setup_buckets;
  setups = setup_count db.calls.rows;
  setup_time = setup_sum db.calls.rows;
  active_calls = active_calls;
  ws_connected = ws_connected;
}

gauge : String → ℕ → Text
gauge name n = codes name ++ (codes " " ++ decimal n)

call_line : CallStatus × ℕ → Text
call_line (st, n) =
    codes "masking_calls_total{status=\"" ++ (call_status_text st ++ (codes "\"} " ++ decimal n))

bucket_line : String → ℕ → Text
bucket_line bound n =
    codes "masking_call_setup_duration_seconds_bucket{le=\""
    ++ (codes bound ++ (codes "\"} " ++ decimal n))

bucket_lines : List (String × ℕ) → List ℕ → List Text
unfolding bucket_line
bucket_lines [] ns = []
bucket_lines (b ∷ bs) [] = []
bucket_lines ((name, bound) ∷ bs) (n ∷ ns) = bucket_line name n ∷ bucket_lines bs ns

-- The body of the response, line by line.
unfoldable pub metrics_lines : (ℤ → Text) → Figures → List Text
unfolding gauge call_line bucket_line bucket_lines call_status_text
metrics_lines fixed3 f =
    codes "# HELP masking_sessions_active Active masking sessions"
    ∷ codes "# TYPE masking_sessions_active gauge"
    ∷ gauge "masking_sessions_active" f.active_sessions
    ∷ codes "# HELP masking_numbers_free Pool numbers free for a new pair"
    ∷ codes "# TYPE masking_numbers_free gauge"
    ∷ gauge "masking_numbers_free" f.pool.free
    ∷ codes "# HELP masking_numbers_cooldown Pool numbers in cooldown"
    ∷ codes "# TYPE masking_numbers_cooldown gauge"
    ∷ gauge "masking_numbers_cooldown" f.pool.in_cooldown
    ∷ codes "# HELP masking_calls_total Calls by final status"
    ∷ codes "# TYPE masking_calls_total counter"
    ∷ (map call_line f.calls
        ++ (codes
              "# HELP masking_call_setup_duration_seconds Time from the inbound call to the moment the callee answered"
            ∷ codes "# TYPE masking_call_setup_duration_seconds histogram"
            ∷ (bucket_lines setup_buckets f.buckets
                ++ (bucket_line "+Inf" f.setups
                    ∷ (codes "masking_call_setup_duration_seconds_sum " ++ fixed3 f.setup_time)
                    ∷ gauge "masking_call_setup_duration_seconds_count" f.setups
                    ∷ codes "# HELP masking_calls_in_flight Calls handled by the Stasis app"
                    ∷ codes "# TYPE masking_calls_in_flight gauge"
                    ∷ gauge "masking_calls_in_flight" f.active_calls
                    ∷ codes "# HELP masking_ari_ws_connected ARI websocket connection state"
                    ∷ codes "# TYPE masking_ari_ws_connected gauge"
                    ∷ gauge "masking_ari_ws_connected" (if f.ws_connected then 1 else 0)
                    ∷ []))))

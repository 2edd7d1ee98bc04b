-- ===== src/Api/Routes.antt =====
-- app/api/routers/sessions.py, app/api/routers/numbers.py, app/api/routers/calls.py,
-- app/api/routers/health.py: the operations behind the routes.
use number_masking_service.Prelude.{
  ℕ, Option, none, some, List, [], ◌∷◌, Bool, true, false, ◌&&◌, ◌==◌, Text, text_eq, codes,
  is_empty, ltb, filter, take, drop, map, if◌then◌else◌,
}
use number_masking_service.Prelude.Sorts.{sort}
use number_masking_service.Errors.{Result, ok, ◌>>=◌}
use number_masking_service.Unicode.{Unicode}
use number_masking_service.Settings.{Settings, ℤ}
use number_masking_service.Crypto.{Primitives}
use number_masking_service.Db.{Db, NumberStatus, Session, SessionStatus, active, expired, closed}
use number_masking_service.Cache.{Redis}
use number_masking_service.Journal.Paging.{Query}
use number_masking_service.Journal.Paging
use number_masking_service.Lookup.{parties_of}
use number_masking_service.Sessions.{World, SessionCreate, Surroundings}
use number_masking_service.Sessions
use number_masking_service.Lifecycle
use number_masking_service.Allocation.{Counted}
use number_masking_service.Numbers.{PoolStats, pool_stats, list_numbers, set_number_status}
use number_masking_service.Numbers
use number_masking_service.Api.Serializers.{
  SessionOut, CallOut, NumberOut, session_out, call_out, number_out,
}

-- The text of a status.
unfoldable pub status_text : SessionStatus → Text
status_text active = codes "active"
status_text expired = codes "expired"
status_text closed = codes "closed"

-- `if value: statement.where(...)`: a filter that is missing or empty adds no condition.
unfoldable pub where_given : Option Text → (Text → Bool) → Bool
where_given none p = true
where_given (some t) p = if is_empty t then true else p t

unfoldable pub same_external : Option Text → Text → Bool
same_external none t = false
same_external (some x) t = text_eq x t

unfoldable pub listed : Option Text → Option Text → Session → Bool
unfolding where_given status_text same_external
listed status external_id s =
    where_given status (text_eq (status_text s.status))
    && where_given external_id (same_external s.external_id)

module _ (c : Primitives) (settings : Settings) where
  unfoldable pub shown : Db → Session → List ℕ → Result SessionOut
  shown db s promoted =
      session_out c settings.encryption_key (Lifecycle.number_e164 db s.number_id) s
        (parties_of db s.id) promoted

  unfoldable pub all_shown : Db → List Session → Result (List SessionOut)
  unfolding shown
  all_shown db [] = ok []
  all_shown db (s ∷ rest) = do
    first ← shown db s []
    others ← all_shown db rest
    ok (first ∷ others)

  -- `create_session`: the response, the sessions that "session.updated" is sent for, and the world.
  unfoldable pub create_session :
      (r : Redis)
      → Unicode
      → Surroundings
      → SessionCreate
      → World r
      → Result (SessionOut × List ℕ × World r)
  unfolding shown
  create_session r u env req w = do
    (created, after, draw) ← Sessions.create_session c settings env req r u w
    let promoted = created.allocation.promoted_session_ids
    out ← shown after.db created.session promoted
    ok (out, promoted, after)

  -- `get_session`.
  unfoldable pub get_session : Db → ℕ → Result SessionOut
  unfolding shown
  get_session db i = do s ← Lifecycle.get_session db i; shown db s []

  -- `list_sessions`: newest first.
  unfoldable pub list_sessions : Db → Option Text → Option Text → ℕ → ℕ → Result (List SessionOut)
  unfolding all_shown listed
  list_sessions db status external_id limit offset = all_shown db (
      take limit (
        drop offset (
          sort (λ a b. ltb b.created_at a.created_at)
            (filter (listed status external_id) db.sessions))))

  -- `update_session`.
  unfoldable pub update_session :
      (r : Redis) → ℕ → ℕ → Option ℤ → Option ℕ → World r → Result (SessionOut × World r)
  unfolding shown
  update_session r now i ttl_seconds expires_at w = do
    (s, after) ← Lifecycle.extend_session r settings now i ttl_seconds expires_at w
    out ← shown after.db s []
    ok (out, after)

  -- `close_session`.
  unfoldable pub close_session : (r : Redis) → ℕ → ℕ → World r → Result (SessionOut × World r)
  unfolding shown
  close_session r now i w = do
    (s, after) ← Lifecycle.close_session r now i closed w
    out ← shown after.db s []
    ok (out, after)

-- `session_calls`: the page and the total.
unfoldable pub session_calls : Db → ℕ → Option ℕ → Option ℕ → ℕ → ℕ → Result (List CallOut × ℕ)
session_calls db i date_from date_to limit offset = do
  s ← Lifecycle.get_session db i
  let query : Query = record {
    session_id = some i;
    status = none;
    date_from = date_from;
    date_to = date_to;
  }
  let (items, total) = Paging.list_calls db.calls query limit offset
  ok (map call_out items, total)

-- A page of the journal, as it is shown.
pub record CallListOut : Type 0 where
  pub total : ℕ
  pub limit : ℕ
  pub offset : ℕ
  pub items : List CallOut

-- `list_calls`.
unfoldable pub list_calls : Db → Query → ℕ → ℕ → CallListOut
list_calls db query limit offset =
    let (items, total) = Paging.list_calls db.calls query limit offset in
    record { total = total; limit = limit; offset = offset; items = map call_out items }

-- `ready`: the HTTP status, and the flags that are shown.
pub record ReadyOut : Type 0 where
  pub http_status : ℕ
  pub is_ready : Bool
  pub database : Bool
  pub redis : Bool
  pub ari : Bool
  pub ari_ws_connected : Bool

unfoldable pub ready : Bool → Bool → Bool → Bool → ReadyOut
ready db_ok redis_ok ari_ok ws_ok =
    let ready_now = db_ok && (redis_ok && ari_ok) in
    record {
      http_status = if ready_now then 200 else 503;
      is_ready = ready_now;
      database = db_ok;
      redis = redis_ok;
      ari = ari_ok;
      ari_ws_connected = ws_ok;
    }

-- The pool with its figures, and an entry for each number.
pub record PoolOut : Type 0 where
  pub stats : PoolStats
  pub numbers : List NumberOut

unfoldable pub active_count : ℕ → List Counted → ℕ
active_count i [] = 0
active_count i (row ∷ rows) =
    let rest = active_count i rows in if row.number.id == i then row.active_count else rest

module _ (settings : Settings) (now : ℕ) where
  unfoldable pub get_pool : Db → PoolOut
  get_pool db = record {
    stats = pool_stats settings now db;
    numbers =
        map (λ (row : Counted). number_out settings now row.number row.active_count)
          (list_numbers db);
  }

  unfoldable pub add_number :
      Unicode → Text → Option Text → NumberStatus → Db → Result (NumberOut × Db)
  add_number u e164 provider status db = do
    (number, after) ← Numbers.add_number u now e164 provider status db
    ok (number_out settings now number 0, after)

  unfoldable pub update_number : Unicode → Text → NumberStatus → Db → Result (NumberOut × Db)
  unfolding active_count
  update_number u e164 status db = do
    (number, after) ← set_number_status u e164 status db
    ok (number_out settings now number (active_count number.id (list_numbers after)), after)

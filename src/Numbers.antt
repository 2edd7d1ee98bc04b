-- ===== src/Numbers.antt =====
-- app/services/numbers.py: the pool of proxy numbers. `now - cooldown < released_at` is written
-- `now < released_at + cooldown`.
pub mod Stats
use number_masking_service.Prelude.{
  ℕ, suc, ◌+◌, ◌-◌, ◌*◌, Option, none, some, List, [], ◌∷◌, ◌++◌, Bool, true, false, not, ◌&&◌,
  Text, text_eq, any, find, count, length, ltb, leb, ◌==◌, if◌then◌else◌, map,
}
use number_masking_service.Prelude.Sorts.{sort}
use number_masking_service.Errors.{
  Result, ok, err, number_already_exists_error, number_not_found_error, ◌>>=◌,
}
use number_masking_service.Unicode.{Unicode}
use number_masking_service.Settings.{Settings, hour}
use number_masking_service.Phone.{normalize_e164}
use number_masking_service.Db.{Db, Number, NumberStatus, Session, is_active, is_enabled}
use number_masking_service.Allocation.{Counted, active_on, counted}

pub record PoolStats : Type 0 where
  pub total : ℕ
  pub enabled : ℕ
  pub disabled : ℕ
  pub in_use : ℕ
  pub in_cooldown : ℕ
  pub free : ℕ
  pub active_sessions : ℕ

-- `ORDER BY e164`: code points.
text_le : Text → Text → Bool
text_le [] t = true
text_le (c ∷ s) [] = false
text_le (c ∷ s) (d ∷ t) = if ltb c d then true else ((c == d) && text_le s t)

-- `list_numbers`: every number with its count of active sessions.
unfoldable pub list_numbers : Db → List Counted
unfolding text_le
list_numbers db = sort (λ a b. text_le a.number.e164 b.number.e164) (counted db db.numbers)

unfoldable pub is_cooling : ℕ → ℕ → Option ℕ → Bool
is_cooling cooldown now none = false
is_cooling cooldown now (some r) = ltb now (r + cooldown)

sum_active : List Counted → ℕ
sum_active [] = 0
sum_active (row ∷ rows) = row.active_count + sum_active rows

abbrev pub idle : Counted → Bool
idle row = is_enabled row.number.status && row.active_count == 0

-- `pool_stats` of the listed rows.
unfoldable pub stats_of : ℕ → ℕ → List Counted → PoolStats
unfolding sum_active is_cooling
stats_of cooldown now rows = record {
  total = length rows;
  enabled = count (λ row. is_enabled row.number.status) rows;
  disabled = length rows - count (λ row. is_enabled row.number.status) rows;
  in_use = count (λ row. ltb 0 row.active_count) rows;
  in_cooldown = count (λ row. idle row && is_cooling cooldown now row.number.released_at) rows;
  free = count (λ row. idle row && not (is_cooling cooldown now row.number.released_at)) rows;
  active_sessions = sum_active rows;
}

unfoldable pub pool_stats : Settings → ℕ → Db → PoolStats
unfolding stats_of
pool_stats settings now db = stats_of (settings.number_cooldown_hours * hour) now (list_numbers db)

-- `add_number`; the unique index on `e164` refuses a number that is there.
unfoldable pub add_number :
    Unicode → ℕ → Text → Option Text → NumberStatus → Db → Result (Number × Db)
add_number u now e164 provider status db = do
  normalized ← normalize_e164 u none e164
  let number : Number = record {
    id = db.next_number_id;
    e164 = normalized;
    status = status;
    provider = provider;
    released_at = none;
    created_at = now;
  }
  if any db.numbers (λ n. text_eq n.e164 normalized)
      then err number_already_exists_error
      else ok (
        number,
        record db { numbers = db.numbers ++ number ∷ []; next_number_id = db.next_number_id + 1 },
      )

unfoldable pub set_status : NumberStatus → Number → Number
set_status status n = record n { status = status }

update_e164 : (Number → Number) → Text → List Number → List Number
update_e164 f e164 [] = []
update_e164 f e164 (n ∷ ns) =
    let rest = update_e164 f e164 ns in if text_eq n.e164 e164 then f n ∷ rest else n ∷ rest

-- `set_number_status` on the tables.
unfoldable pub set_number_status : Unicode → Text → NumberStatus → Db → Result (Number × Db)
unfolding update_e164 set_status
set_number_status u e164 status db = do
  normalized ← normalize_e164 u none e164
  elim (find (λ n. text_eq n.e164 normalized) db.numbers) [
    | none ↦ err number_not_found_error
    | some n ↦ ok (
      set_status status n,
      record db { numbers = update_e164 (set_status status) normalized db.numbers },
    )
  ]

-- ===== src/Numbers/Stats.antt =====
-- app/services/numbers.py: the figures of the pool add up.
use number_masking_service.Prelude.{
  ℕ, ◌+◌, ◌≡◌, ◌≤◌, Option, none, some, List, count, length, Bool, true, ◌&&◌, ◌==◌, ltb, leb,
}
use number_masking_service.Db.{Db, is_enabled}
use number_masking_service.Settings.{Settings}
use number_masking_service.Allocation.{Counted}
use number_masking_service.Numbers.{PoolStats}

-- Enabled, with a call session on it.
abbrev pub busy : Counted → Bool
busy row = is_enabled row.number.status && ltb 0 row.active_count

-- The cooldown of a number that was released is over; one that was not has none.
abbrev pub has_rested : ℕ → ℕ → Option ℕ → Bool
has_rested cooldown now none = true
has_rested cooldown now (some released) = leb (released + cooldown) now

-- Enabled, without a session, and not in its cooldown.
abbrev pub can_be_given : ℕ → ℕ → Counted → Bool
can_be_given cooldown now row =
    is_enabled row.number.status
    && (row.active_count == 0 && has_rested cooldown now row.number.released_at)

-- The figures of a snapshot are those of its rows, and add up.
pub record IsBalanced (cooldown now : ℕ) (rows : List Counted) (s : PoolStats) : Type 0 where
  pub complete : s.total ≡ length rows
  pub by_status : s.enabled + s.disabled ≡ s.total
  pub partition : s.free + s.in_cooldown + count busy rows ≡ s.enabled
  pub givable : s.free ≡ count (can_be_given cooldown now) rows
  pub used : s.in_use ≤ s.total
  pub busy_use : count busy rows ≤ s.in_use
  pub carried : s.in_use ≤ s.active_sessions
  pub accounted : s.in_use ≤ count busy rows + s.disabled

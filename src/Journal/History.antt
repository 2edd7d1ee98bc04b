-- ===== src/Journal/History.antt =====
-- app/services/calls.py: what any sequence of journal writes keeps of a closed row.
use mathlib.Core.Option
use number_masking_service.Prelude.{ℕ, ◌≡◌, Option, some, Text}
use number_masking_service.Journal.{Call, Journal, get}

-- `d` is `c` at a later time: the party, the number, the times and the duration are the same, and
-- so is a hangup cause that was known.
pub record Continues (c d : Call) : Type 0 where
  pub started_at : d.started_at ≡ c.started_at
  pub caller_hash : d.caller_hash ≡ c.caller_hash
  pub proxy_e164 : d.proxy_e164 ≡ c.proxy_e164
  pub channel_id : d.channel_id ≡ c.channel_id
  pub ended_at : d.ended_at ≡ c.ended_at
  pub duration_sec : d.duration_sec ≡ c.duration_sec
  pub hangup_cause : (h : Text) → c.hangup_cause ≡ some h → d.hangup_cause ≡ some h

-- A write that only continues the closed rows.
KeepsClosed : (Call → Call) → Type 0
KeepsClosed f = (c : Call) (t : ℕ) → c.ended_at ≡ some t → Continues c (f c)

-- The row `i` after one write continues the row before it.
abbrev pub StillClosed : Journal → ℕ → Call → Type 0
StillClosed j i c = (d : Call) × (get j i ≡ some d) × Continues c d

-- ===== src/Journal/Talk.antt =====
-- app/services/calls.py: the duration of a call is the talk time, and an answer that comes late.
use number_masking_service.Prelude.{ℕ, ◌≡◌, Option, none, some, arith, Text, ==_refl}
use number_masking_service.Journal.{
  Call, Journal, answered, get, answer_row, mark_answered, talk_seconds,
}
use number_masking_service.Journal.Rows.{get-update}
use number_masking_service.Journal.Outcome.{answer_row-KeepsId}

-- The talk time between two moments that are both known.
abbrev pub span : Option ℕ → Option ℕ → Option ℕ
span none _ = none
span (some a) none = none
span (some a) (some b) = some (talk_seconds a b)

-- A recorded duration is the talk time of the row.
abbrev pub IsTimed : Call → Type 0
IsTimed c = (n : ℕ) → c.duration_sec ≡ some n → span c.answered_at c.ended_at ≡ some n

KeepsTimed : (Call → Call) → Type 0
KeepsTimed f = (c : Call) → IsTimed c → IsTimed (f c)

-- An answer that is journalled after an unanswered call has ended takes its outcome over: the row
-- then says "answered", with the end that it had and with no duration.
pub late_answer :
    (j : Journal) (i now t : ℕ) (b : Option Text) (c : Call)
    → get j i ≡ some c
    → c.ended_at ≡ some t
    → c.answered_at ≡ none
    → c.duration_sec ≡ none
    → (d : Call) × (get (mark_answered j now i b) i ≡ some d)
      × (d.status ≡ answered)
      × (d.ended_at ≡ some t)
      × (d.duration_sec ≡ none)
unfolding mark_answered answer_row
late_answer j i now t b c e h u v = (
  answer_row now b c,
  rw (get-update (answer_row now b) j i i (answer_row-KeepsId now b), ==_refl i, e),
  ground arith,
  ground arith,
  ground arith,
)

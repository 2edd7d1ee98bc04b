-- ===== src/Journal.antt =====
-- app/services/calls.py: the call journal. `Call` is a row of the table `calls`
-- (app/db/models.py); times are microseconds, and each reading of the clock is an argument.
pub mod Rows
pub mod Sequence
pub mod Outcome
pub mod History
pub mod Talk
pub mod Paging
use number_masking_service.Prelude.{
  ℕ, zero, suc, ◌+◌, ◌-◌, ◌/◌, Option, none, some, List, [], ◌∷◌, ◌++◌, Bool, Text, is_empty,
  or_else, ◌==◌, if◌then◌else◌, find, ltb, count, true, false, ◌&&◌,
}

pub data CallStatus : Type 0 where
  in_progress answered no_answer busy rejected expired unknown_caller failed : CallStatus

pub data Direction : Type 0 where
  a2b b2a : Direction

pub record Call : Type 0 where
  pub id : ℕ
  pub session_id : Option ℕ
  pub direction : Option Direction
  pub caller_hash : Text
  pub proxy_e164 : Text
  pub started_at : ℕ
  pub answered_at : Option ℕ
  pub ended_at : Option ℕ
  pub duration_sec : Option ℕ
  pub status : CallStatus
  pub hangup_cause : Option Text
  pub channel_id : Option Text
  pub bridge_id : Option Text

-- The table with the value that its sequence gives to the next row.
pub record Journal : Type 0 where
  pub rows : List Call
  pub next_id : ℕ

abbrev pub second : ℕ
second = 1_000_000

-- `max(int((ended - answered).total_seconds()), 0)`: whole seconds, and 0 if the clock went back.
unfoldable pub talk_seconds : ℕ → ℕ → ℕ
talk_seconds from until = (until - from) / second

-- `db.get(Call, call_id)`.
unfoldable pub get : Journal → ℕ → Option Call
get j i = find (λ c. c.id == i) j.rows

-- The flush of a changed row.
pub replace : Call → List Call → List Call
replace c [] = []
replace c (x ∷ xs) = let rest = replace c xs in if x.id == c.id then c ∷ rest else x ∷ rest

unfoldable pub store : Journal → Call → Journal
unfolding replace
store j c = record j { rows = replace c j.rows }

unfoldable pub start_call :
    Journal → ℕ → Text → Text → Text → Option ℕ → Option Direction → CallStatus → Call × Journal
start_call j now caller_hash proxy_e164 channel_id session_id direction status =
    let call : Call = record {
      id = j.next_id;
      session_id = session_id;
      direction = direction;
      caller_hash = caller_hash;
      proxy_e164 = proxy_e164;
      started_at = now;
      answered_at = none;
      ended_at = none;
      duration_sec = none;
      status = status;
      hangup_cause = none;
      channel_id = some channel_id;
      bridge_id = none;
    } in
    (call, record { rows = j.rows ++ call ∷ []; next_id = j.next_id + 1 })

-- `if bridge_id:` passes over an empty identifier too.
set_bridge : Option Text → Call → Call
set_bridge none c = c
set_bridge (some b) c = if is_empty b then c else record c { bridge_id = some b }

unfoldable pub answer_row : ℕ → Option Text → Call → Call
unfolding set_bridge
answer_row now bridge_id c = elim c.answered_at [
  | some _ ↦ c
  | none ↦ set_bridge bridge_id (record c { answered_at = some now; status = answered })
]

-- Runs `f` on the row, and writes what it returns; a missing row changes nothing.
unfoldable pub update : (Call → Call) → Journal → ℕ → Journal
update f j i = elim (get j i) [ none ↦ j | some c ↦ store j (f c) ]

unfoldable pub mark_answered : Journal → ℕ → ℕ → Option Text → Journal
mark_answered j now i bridge_id = update (answer_row now bridge_id) j i

outcome : ℕ → Option CallStatus → Call → Call
outcome now status c = elim c.answered_at [
  | some t ↦ record c { duration_sec = some (talk_seconds t now); status = or_else status answered }
  | none ↦ record c { status = or_else status failed }
]

keep_or {ℓ} : {A : Type ℓ} → Option A → Option A → Option A
keep_or none old = old
keep_or (some a) old = some a

unfoldable pub finish_row :
    ℕ → Option CallStatus → Option Text → Option ℕ → Option Direction → Call → Call
unfolding outcome keep_or talk_seconds
finish_row now status cause session_id direction c = elim c.ended_at [
  | some _ ↦ c
  | none ↦
      let d : Call = outcome now status (record c { ended_at = some now }) in
      record d {
        hangup_cause = keep_or cause d.hangup_cause;
        session_id = keep_or session_id d.session_id;
        direction = keep_or direction d.direction;
      }
]

-- Returns the closed row too.
unfoldable pub finish_call :
    Journal
    → ℕ
    → ℕ
    → Option CallStatus
    → Option Text
    → Option ℕ
    → Option Direction
    → Option Call × Journal
finish_call j now i status cause session_id direction =
    let j' = update (finish_row now status cause session_id direction) j i in (get j' i, j')

unfoldable pub attach_row : ℕ → Direction → Call → Call
attach_row session_id direction c = record c {
  session_id = some session_id;
  direction = some direction;
}

unfoldable pub attach_session : Journal → ℕ → ℕ → Direction → Journal
attach_session j i session_id direction = update (attach_row session_id direction) j i

unfoldable pub cause_row : Text → Call → Call
cause_row cause c = elim c.hangup_cause [
  | some _ ↦ c
  | none ↦ record c { hangup_cause = some cause }
]

unfoldable pub set_hangup_cause : Journal → ℕ → Text → Journal
set_hangup_cause j i cause = update (cause_row cause) j i

-- What the clients of the journal do to it, one constructor for each function that writes.
pub data Op : Type 0 where
  start : ℕ → Text → Text → Text → Option ℕ → Option Direction → CallStatus → Op
  answer : ℕ → ℕ → Option Text → Op
  finish : ℕ → ℕ → Option CallStatus → Option Text → Option ℕ → Option Direction → Op
  attach : ℕ → ℕ → Direction → Op
  record_cause : ℕ → Text → Op

pub perform : Journal → Op → Journal
unfolding start_call mark_answered finish_call attach_session set_hangup_cause
perform j (start now caller proxy channel session direction status) =
    (start_call j now caller proxy channel session direction status).1
perform j (answer now i bridge_id) = mark_answered j now i bridge_id
perform j (finish now i status cause session_id direction) =
    (finish_call j now i status cause session_id direction).1
perform j (attach i session_id direction) = attach_session j i session_id direction
perform j (record_cause i cause) = set_hangup_cause j i cause

pub run : Journal → List Op → Journal
run j [] = j
run j (o ∷ os) = run (perform j o) os

in_session : ℕ → Option ℕ → Bool
in_session i none = false
in_session i (some s) = s == i

is_answered : CallStatus → Bool
is_answered answered = true
is_answered _ = false

-- `answered_call_count` of app/services/sessions.py.
unfoldable pub answered_call_count : Journal → ℕ → ℕ
unfolding in_session is_answered
answered_call_count j session_id =
    count (λ c. in_session session_id c.session_id && is_answered c.status) j.rows

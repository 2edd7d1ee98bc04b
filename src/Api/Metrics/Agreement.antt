-- ===== src/Api/Metrics/Agreement.antt =====
-- app/api/routers/health.py: the figures of `metrics` agree with one another.
use number_masking_service.Prelude.{
  ℕ, ◌+◌, ◌≡◌, ◌≤◌, refl, List, [], ◌∷◌, Bool, true, map, filter, count, length, ltb, is_some,
  arith, count_mono, count-le-length, ◌∙◌, Option-cases, inl, inr,
}
use number_masking_service.Settings.{Settings}
use number_masking_service.Journal.{Call, CallStatus}
use number_masking_service.Db.{Db}
use number_masking_service.Api.Metrics.{
  same_status, with_status, call_rows, set_up_within, bucket, setup_count, Figures, figures,
}

-- Each number is at most the next one, and all are at most the last bound.
abbrev pub Ascending : List ℕ → ℕ → Type 0
Ascending [] top = Unit
Ascending (n ∷ []) top = n ≤ top
Ascending (n ∷ m ∷ ns) top = (n ≤ m) × Ascending (m ∷ ns) top

abbrev pub total : List (CallStatus × ℕ) → ℕ
total [] = 0
total ((st, n) ∷ gs) = n + total gs

set_up_within_mono :
    (low high : ℕ) (c : Call)
    → low ≤ high
    → set_up_within low c ≡ true
    → set_up_within high c ≡ true
unfolding set_up_within
set_up_within_mono low high c h = elim (Option-cases c.answered_at) [
  | inl e ↦ rw e (λ k. absurd (cc k))
  | inr (t, e) ↦ rw e (λ k. ground arith)
]

set_up_within-answered :
    (bound : ℕ) (c : Call) → set_up_within bound c ≡ true → is_some c.answered_at ≡ true
unfolding set_up_within
set_up_within-answered bound c = elim (Option-cases c.answered_at) [
  | inl e ↦ rw e (λ k. absurd (cc k))
  | inr (t, e) ↦ rw e (λ k. refl)
]

step :
    (low high : ℕ) (rows : List Call)
    → low ≤ high
    → count (set_up_within low) rows ≤ count (set_up_within high) rows
step low high rows h =
    count_mono (set_up_within low) (set_up_within high) rows (λ c. set_up_within_mono low high c h)

-- A list that has each status once.
abbrev pub Complete : List CallStatus → Type 0
Complete order = (st : CallStatus) → count (λ x. same_status x st) order ≡ 1

total-filter :
    (gs : List (CallStatus × ℕ)) → total (filter (λ (g : CallStatus × ℕ). ltb 0 g.1) gs) ≡ total gs
total-filter [] = refl
total-filter ((st, n) ∷ gs) = ground (arith, total-filter gs)

total-row :
    (order : List CallStatus) (c : Call) (rows : List Call)
    → total (map (with_status (c ∷ rows)) order)
      ≡ count (λ x. same_status x c.status) order + total (map (with_status rows) order)
unfolding with_status
total-row [] c rows = refl
total-row (st ∷ order) c rows = ground (arith, total-row order c rows)

total-empty : (order : List CallStatus) → total (map (with_status []) order) ≡ 0
unfolding with_status
total-empty [] = refl
total-empty (st ∷ order) = omega (arith, total-empty order)

total-call_rows :
    (order : List CallStatus) (rows : List Call)
    → Complete order
    → total (map (with_status rows) order) ≡ length rows
total-call_rows order [] h = total-empty order
total-call_rows order (c ∷ rows) h =
    omega (arith, total-row order c rows, h c.status, total-call_rows order rows h)

-- `calls` is the number of rows of the journal.
pub record IsAgreed (calls : ℕ) (f : Figures) : Type 0 where
  pub cumulative : Ascending f.buckets f.setups
  pub summed : total f.calls ≡ calls
  pub answered : f.setups ≤ calls

-- The figures of `metrics` agree, in whatever order the database gives the groups, each once: the
-- counts of the histogram only grow from bucket to bucket, and reach at most its total; the counts by
-- status add up to the calls there are, of which the histogram counts no more.
pub figures-IsAgreed :
    (settings : Settings) (now : ℕ) (order : List CallStatus) (active_calls : ℕ)
    (ws_connected : Bool) (db : Db)
    → Complete order
    → IsAgreed (length db.calls.rows) (figures settings now order active_calls ws_connected db)
unfolding figures call_rows bucket setup_count
figures-IsAgreed settings now order active_calls ws_connected db complete =
    let rows = db.calls.rows in
    record {
      cumulative = (
        step 500_000 1_000_000 rows (omega arith),
        (
          step 1_000_000 2_000_000 rows (omega arith),
          (
            step 2_000_000 5_000_000 rows (omega arith),
            (
              step 5_000_000 10_000_000 rows (omega arith),
              (
                step 10_000_000 30_000_000 rows (omega arith),
                count_mono (set_up_within 30_000_000) (λ (c : Call). is_some c.answered_at) rows
                    (set_up_within-answered 30_000_000),
              ),
            ),
          ),
        ),
      );
      summed = total-filter (map (with_status rows) order) ∙ total-call_rows order rows complete;
      answered = count-le-length (λ (c : Call). is_some c.answered_at) rows;
    }

-- ===== src/Stasis/Phases.antt =====
-- app/ari/stasis.py: the life of one call, as whoever watches the journal and the webhooks sees it.
pub mod Refinement
use number_masking_service.Prelude.{ℕ, ◌≤◌, arith, leb, if◌then◌else◌}
use number_masking_service.Stasis.{Env, App}
use number_masking_service.Stasis.Fine.{copies, flags, ends}

-- A call is still to come, or goes on, or is torn down, or its end is announced.
pub data Phase : Type 0 where
  unborn live ending over : Phase

-- What may happen to it.
pub data Advance : Phase → Phase → Type 0 where
  begin_call : Advance unborn live
  begin_to_end : Advance live ending
  announce : Advance ending over

pub data Advances (p : Phase) : Phase → Type 0 where
  stay : Advances p p
  more : {q r : Phase} → Advances p q → Advance q r → Advances p r

abbrev pub phase_of : ℕ → ℕ → ℕ → Phase
phase_of c f n =
    if leb 1 n then over else if leb 1 f then ending else if leb 1 c then live else unborn

-- The phase of the call with the journal row `i`.
abbrev pub phase : {e : Env} → ℕ → App e → Phase
phase i a = phase_of (copies i a.heap) (flags i a.heap) (ends i a.outbox)

abbrev pub rank : Phase → ℕ
rank unborn = 0
rank live = 1
rank ending = 2
rank over = 3

-- A later phase is reached by the steps in between.
pub Advances-rank : (p q : Phase) → rank p ≤ rank q → Advances p q
Advances-rank unborn unborn h = stay
Advances-rank unborn live h = more stay begin_call
Advances-rank unborn ending h = more (more stay begin_call) begin_to_end
Advances-rank unborn over h = more (more (more stay begin_call) begin_to_end) announce
Advances-rank live unborn h = grind arith
Advances-rank live live h = stay
Advances-rank live ending h = more stay begin_to_end
Advances-rank live over h = more (more stay begin_to_end) announce
Advances-rank ending unborn h = grind arith
Advances-rank ending live h = grind arith
Advances-rank ending ending h = stay
Advances-rank ending over h = more stay announce
Advances-rank over unborn h = grind arith
Advances-rank over live h = grind arith
Advances-rank over ending h = grind arith
Advances-rank over over h = stay

pub rank-phase_of :
    (c f n c' f' n' : ℕ)
    → c ≤ c'
    → f ≤ f'
    → n ≤ n'
    → rank (phase_of c f n) ≤ rank (phase_of c' f' n')
rank-phase_of c f n c' f' n' hc hf hn = ground arith

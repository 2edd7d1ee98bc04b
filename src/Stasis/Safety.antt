-- ===== src/Stasis/Safety.antt =====
-- app/ari/stasis.py: what the application never does.
use number_masking_service.Prelude.{
  ℕ, ◌≤◌, ◌≡◌, List, [], ◌∷◌, true, Text, In, All-at, arith, length,
}
use number_masking_service.Stasis.{Env, CallState, Origination, originate}
use number_masking_service.Stasis.Teardown.{pending_cause_limit}
use number_masking_service.Stasis.Connect.{caller_identity}
use number_masking_service.Stasis.Fine.{ends, flags, copies, knows, Proper}
use number_masking_service.Stasis.System.{System, Reach}
use number_masking_service.Stasis.Invariant.{Reach-Orderly}

flags-copies : (i : ℕ) (heap : List CallState) → flags i heap ≤ copies i heap
flags-copies i [] = omega arith
flags-copies i (s ∷ heap) = ground (arith, flags-copies i heap)

-- In every state that the application may reach, whatever events arrive, however the tasks are
-- interleaved and whichever requests fail: the end of a call was announced once at most, and only
-- where the call began to finish.
pub finish-once :
    {e : Env} (s : System e) (i : ℕ)
    → Reach s
    → (ends i s.app.outbox ≤ 1) × (ends i s.app.outbox ≤ flags i s.app.heap)
finish-once s i r =
    let h = Reach-Orderly i r in
    (omega (arith, h.paid, flags-copies i s.app.heap, h.fresh.single), omega (arith, h.paid))

-- In every state that the application may reach: each leg that was ever dialled was dialled for the
-- channel of a call that is known, and it was told the proxy number of that call as its caller.
pub originate-masked :
    {e : Env} (s : System e) (o : Origination)
    → Reach s
    → In (originate o) s.trace
    → (proxy : Text) × (knows s.app.heap o.originator proxy ≡ true)
      × (o.caller_id ≡ caller_identity proxy)
originate-masked s o r m = All-at (Proper s.app) s.trace (originate o) (Reach-Orderly 0 r).traced m

-- In every state that the application may reach, at most 512 ended calls wait for their cause.
pub pending_cause-bounded :
    {e : Env} (s : System e) → Reach s → length s.app.pending_cause ≤ pending_cause_limit
pending_cause-bounded s r = (Reach-Orderly 0 r).bounded

-- ===== src/Stasis/Budget/Calling.antt =====
-- app/ari/stasis.py: the requests of `_connect` and `_ask_for_code`.
use number_masking_service.Prelude.{
  ℕ, zero, suc, ◌+◌, ◌*◌, ◌≤◌, ◌≡◌, refl, Option, none, some, List, [], Bool, true, false, Text,
  or_else, arith, leb,
}
use number_masking_service.Journal.{failed, rejected, no_answer}
use number_masking_service.Lookup.{Candidate}
use number_masking_service.Stasis.{
  Env, Await, Origination, originate, collect, create_bridge, add_to_bridge, ◌>>=◌, try_request,
}
use number_masking_service.Stasis.Teardown.{reject_cause}
use number_masking_service.Stasis.Connect.{
  originate_watchdog, new_bridge_id, limit_reached, ring_first, join_bridge, bridge_up,
  after_originate, dial, call_out, after_bridge, within_limit, connect, attach, typed, enter_media,
  prompts, ask_for_code, no_answer_cause, endpoint_for, origination,
}
use number_masking_service.Stasis.Budget.{
  cost, Costs, Costs-pure, Costs-le, Costs-bind, Costs-try_request, Costs-ask_text, Costs-reads,
  Costs-state_at, Costs-some_or_fail, Costs-writes, Costs-set_state, Costs-when, Costs-for_some,
  Costs-if,
}
use number_masking_service.Stasis.Budget.Ending.{
  routine, Costs-then, request-Costs, try_request-Costs, transact-Costs, play-Costs,
  pop_outbound-Costs, finish-Costs, reject-Costs, cost-none,
}

-- Requests that put a channel into a bridge.
abbrev pub bridging : Await → Bool
bridging (create_bridge b n) = true
bridging (add_to_bridge b c) = true
bridging _ = false

-- Bounds on what one request to dial, and one prompt, count for.
module _ {e : Env} (p : Await → Bool) (quiet : (c : Await) → routine c ≡ true → p c ≡ false)
    (calm : (c : Await) → bridging c ≡ true → p c ≡ false) (d : ℕ)
    (dials : (o : Origination) → cost p (originate o) ≤ d) where
  originate_watchdog-Costs : (r : ℕ) → Costs {e = e} p 0 (originate_watchdog r)
  unfolding originate_watchdog
  originate_watchdog-Costs r = Costs-then p quiet 0 _ _ (request-Costs p quiet _ refl) λ _.
      Costs-then p quiet 0 _ _ (Costs-state_at p r)
        λ s. Costs-when p 0 _ _ (finish-Costs p quiet r (some no_answer) (some no_answer_cause))

  limit_reached-Costs :
      (candidate : Candidate) (limit : Option ℕ) → Costs {e = e} p 0 (limit_reached candidate limit)
  unfolding limit_reached
  limit_reached-Costs candidate none = Costs-pure p false
  limit_reached-Costs candidate (some limit) =
      Costs-then p quiet 0 _ _ (transact-Costs p quiet _) (λ used. Costs-pure p (leb limit used))

  ring_first-Costs : (r : ℕ) (already : Bool) → Costs {e = e} p 0 (ring_first r already)
  unfolding ring_first
  ring_first-Costs r true = Costs-pure p true
  ring_first-Costs r false =
      Costs-then p quiet 0 _ _ (Costs-state_at p r) (λ s. try_request-Costs p quiet _ refl)

  new_bridge_id-Costs : Costs {e = e} p 0 new_bridge_id
  unfolding new_bridge_id
  new_bridge_id-Costs =
      Costs-then p quiet 0 _ _ (Costs-reads p _)
        λ n. Costs-then p quiet 0 _ _ (Costs-writes p _) (λ _. Costs-pure p _)

  bridging-Costs : (c : Await) → bridging c ≡ true → Costs {e = e} p 0 (try_request c)
  bridging-Costs c h = Costs-le p _ 0 _ (cost-none p c (calm c h)) (Costs-try_request p c)

  join_bridge-Costs :
      (r : ℕ) (bridge : Text) (created : Bool) → Costs {e = e} p 0 (join_bridge r bridge created)
  unfolding join_bridge
  join_bridge-Costs r bridge false = Costs-pure p false
  join_bridge-Costs r bridge true =
      Costs-then p quiet 0 _ _ (Costs-set_state p r _)
        λ _. Costs-then p quiet 0 _ _ (Costs-state_at p r) (λ s. bridging-Costs _ refl)

  bridge_up-Costs :
      (r : ℕ) (candidate : Candidate) (rung : Bool) → Costs {e = e} p 0 (bridge_up r candidate rung)
  unfolding bridge_up
  bridge_up-Costs r candidate false = Costs-pure p false
  bridge_up-Costs r candidate true =
      Costs-then p quiet 0 _ _ new_bridge_id-Costs
        λ bridge. Costs-then p quiet 0 _ _ (bridging-Costs _ refl) (join_bridge-Costs r bridge)

  after_originate-Costs :
      (r : ℕ) (outbound : Text) (originated : Bool)
      → Costs {e = e} p 0 (after_originate r outbound originated)
  unfolding after_originate
  after_originate-Costs r outbound true = record {
    within = λ m k h. (0, m, omega arith, (originate_watchdog-Costs r).within 0 _ (λ x. tt), h tt);
  }
  after_originate-Costs r outbound false =
      Costs-then p quiet 0 _ _ (pop_outbound-Costs p quiet outbound)
        (λ _. reject-Costs p quiet r (some e.settings.sound_error) failed)

  dial-Costs :
      (r : ℕ) (candidate : Candidate) (endpoint : Text)
      → Costs {e = e} p d (dial r candidate endpoint)
  unfolding dial
  dial-Costs r candidate endpoint =
      Costs-then p quiet d _ _ (Costs-state_at p r)
        (λ s. Costs-le p _ d _ (dials (origination e candidate endpoint s)) (Costs-try_request p _))

  call_out-Costs : (r : ℕ) (candidate : Candidate) → Costs {e = e} p d (call_out r candidate)
  unfolding call_out
  call_out-Costs r candidate = Costs-then p quiet d _ _ (Costs-state_at p r) λ s.
      Costs-then p quiet d _ _ (Costs-writes p _) λ _.
        Costs-then p quiet d _ _ (Costs-set_state p r _) λ _.
          Costs-then p quiet d _ _
            (Costs-some_or_fail p (endpoint_for e.settings.endpoint_template candidate.callee_e164))
            λ endpoint.
              Costs-le p (d + 0) d _ (omega arith)
                (Costs-bind p d 0 _ _ (dial-Costs r candidate endpoint) (after_originate-Costs r _))

  after_bridge-Costs :
      (r : ℕ) (candidate : Candidate) (bridged : Bool)
      → Costs {e = e} p d (after_bridge r candidate bridged)
  unfolding after_bridge
  after_bridge-Costs r candidate true = call_out-Costs r candidate
  after_bridge-Costs r candidate false =
      Costs-le p 0 d _ (omega arith) (reject-Costs p quiet r (some e.settings.sound_error) failed)

  within_limit-Costs :
      (r : ℕ) (candidate : Candidate) (already full : Bool)
      → Costs {e = e} p d (within_limit r candidate already full)
  unfolding within_limit
  within_limit-Costs r candidate already true =
      Costs-le p 0 d _ (omega arith)
        (reject-Costs p quiet r (some e.settings.sound_expired) rejected)
  within_limit-Costs r candidate already false =
      Costs-then p quiet d _ _ (ring_first-Costs r already) λ rung.
        Costs-then p quiet d _ _ (bridge_up-Costs r candidate rung) (after_bridge-Costs r candidate)

  pub connect-Costs :
      (r : ℕ) (candidate : Candidate) (already : Bool)
      → Costs {e = e} p d (connect r candidate already)
  unfolding connect
  connect-Costs r candidate already = Costs-then p quiet d _ _ (Costs-set_state p r _) λ _.
      Costs-then p quiet d _ _ (limit_reached-Costs candidate candidate.max_calls)
        (within_limit-Costs r candidate already)

  attach-Costs : (r : ℕ) (candidate : Candidate) → Costs {e = e} p 0 (attach r candidate)
  unfolding attach
  attach-Costs r candidate =
      Costs-then p quiet 0 _ _ (Costs-state_at p r)
        (λ s. Costs-for_some p 0 _ _ (λ j. transact-Costs p quiet _))

  prompts-Costs :
      (q : ℕ)
      → ((r : ℕ) → cost p (collect r) ≤ q)
      → (r : ℕ) (candidates : List Candidate) (left : ℕ) (first : Bool)
      → Costs {e = e} p (left * q + d) (prompts r candidates left first)
  unfolding prompts
  prompts-Costs q asks r candidates zero first = Costs-le p 0 _ _ (omega arith) (
      Costs-then p quiet 0 _ _ (Costs-state_at p r) λ s.
        Costs-then p quiet 0 _ _ (play-Costs p quiet s.channel_id e.settings.sound_wrong_code)
          (λ _. finish-Costs p quiet r (some rejected) (some reject_cause)))
  prompts-Costs q asks r candidates (suc left) first =
      let n = left * q + d in
      Costs-then p quiet _ _ _ (Costs-state_at p r) λ s.
        Costs-then p quiet _ _ _ (play-Costs p quiet s.channel_id (enter_media e first)) λ _.
          Costs-le p (q + n) _ _ (ground arith) (
            Costs-bind p q n _ _ (Costs-le p _ q _ (asks r) (Costs-ask_text p _)) (λ digits.
              picked (typed candidates (or_else digits []))
                (prompts-Costs q asks r candidates left false)))
    where
      picked :
          (o : Option Candidate)
          → Costs {e = e} p (left * q + d) (prompts r candidates left false)
          → Costs {e = e} p (left * q + d) (λ k. elim o [
            | none ↦ prompts r candidates left false k
            | some candidate ↦ (attach r candidate >>= λ _. connect r candidate true) k
          ])
      picked none h = record { within = h.within }
      picked (some candidate) h = record {
        within =
            (Costs-le p d (left * q + d) _ (omega arith) (
              Costs-then p quiet d _ _ (attach-Costs r candidate)
                (λ _. connect-Costs r candidate true))).within;
      }

  pub ask_for_code-Costs :
      (q : ℕ)
      → ((r : ℕ) → cost p (collect r) ≤ q)
      → (r : ℕ) (candidates : List Candidate)
      → Costs {e = e} p (e.settings.dtmf_max_attempts * q + d) (ask_for_code r candidates)
  unfolding ask_for_code
  ask_for_code-Costs q asks r candidates =
      let n = e.settings.dtmf_max_attempts * q + d in
      let gone = Costs-le p 0 n _ (omega arith) (finish-Costs p quiet r (some failed) none) in
      Costs-then p quiet n _ _ (Costs-state_at p r) λ s.
        Costs-then p quiet n _ _ (try_request-Costs p quiet _ refl) λ up.
          Costs-then p quiet n _ _ (Costs-state_at p r) λ t.
            Costs-if p n up _ _
              (Costs-if p n t.collecting _ _
                (prompts-Costs q asks r candidates e.settings.dtmf_max_attempts true) gone)
              gone

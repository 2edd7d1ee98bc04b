-- ===== src/Stasis/Budget/Ending.antt =====
-- app/ari/stasis.py: the requests of `_finish` and `_reject`.
use number_masking_service.Prelude.{
  ℕ, ◌+◌, ◌≤◌, ◌≡◌, refl, Option, none, some, Bool, true, false, Text, arith,
}
use number_masking_service.Errors.{Result}
use number_masking_service.Journal.{Call, CallStatus}
use number_masking_service.Stasis.{
  Env, App, CallState, Await, Async, play, create_bridge, add_to_bridge, originate, transaction,
  collect, cancel, ◌>>=◌, request, try_request, transact,
}
use number_masking_service.Stasis.Teardown.{
  finish, teardown, conclude, record_end, ended_webhook, expect_cause, pop_outbound,
  release_outbound, forget, reject, reject_cause, play as play_prompt,
}
use number_masking_service.Stasis.Budget.{
  cost, Costs, Costs-pure, Costs-le, Costs-bind, Costs-request, Costs-try_request, Costs-ask_text,
  Costs-state_at, Costs-writes, Costs-set_state, Costs-emit, Costs-when, Costs-for_some,
  Costs-transact, Costs-free,
}

-- Requests of any call, whether it is connected or not.
abbrev pub routine : Await → Bool
routine (create_bridge b n) = false
routine (add_to_bridge b c) = false
routine (originate o) = false
routine (collect r) = false
routine _ = true

-- What is not counted costs nothing.
pub cost-none : (p : Await → Bool) (c : Await) → p c ≡ false → cost p c ≤ 0
cost-none p c h = ground (arith, h)

module _ {e : Env} (p : Await → Bool) (quiet : (c : Await) → routine c ≡ true → p c ≡ false) where
  pub Costs-then {ℓ κ} :
      {A : Type ℓ} {B : Type κ} (n : ℕ) (call : Async e A) (rest : A → Async e B)
      → Costs p 0 call
      → ((x : A) → Costs p n (rest x))
      → Costs p n (call >>= rest)
  Costs-then n call rest c d =
      Costs-le p (0 + n) n (call >>= rest) (omega arith) (Costs-bind p 0 n call rest c d)

  pub request-Costs : (c : Await) → routine c ≡ true → Costs {e = e} p 0 (request c)
  request-Costs c h = Costs-le p _ 0 _ (cost-none p c (quiet c h)) (Costs-request p c)

  pub try_request-Costs : (c : Await) → routine c ≡ true → Costs {e = e} p 0 (try_request c)
  try_request-Costs c h = Costs-le p _ 0 _ (cost-none p c (quiet c h)) (Costs-try_request p c)

  pub transact-Costs {ℓ} : {A : Type ℓ} (f : App e → Result (A × App e)) → Costs p 0 (transact f)
  transact-Costs f =
      Costs-le p _ 0 _ (cost-none p transaction (quiet transaction refl)) (Costs-transact p f)

  pub play-Costs : (channel media : Text) → Costs {e = e} p 0 (play_prompt channel media)
  unfolding play_prompt
  play-Costs channel media =
      Costs-then 0 _ _
        (Costs-le p _ 0 _ (cost-none p (play channel media) (quiet (play channel media) refl))
          (Costs-ask_text p _))
        (λ id. Costs-for_some p 0 _ _ (λ i. request-Costs _ refl))

  pub pop_outbound-Costs : (channel : Text) → Costs {e = e} p 0 (pop_outbound channel)
  unfolding pop_outbound
  pop_outbound-Costs channel = Costs-writes p _

  ended_webhook-Costs :
      (j : ℕ) (status : CallStatus) (cause : Option ℕ) (call : Option Call) (s : CallState)
      → Costs {e = e} p 0 (ended_webhook j status cause call s)
  unfolding ended_webhook
  ended_webhook-Costs j status cause none s = Costs-emit p _
  ended_webhook-Costs j status cause (some call) s = Costs-emit p _

  record_end-Costs :
      (r : ℕ) (status : CallStatus) (cause : Option ℕ) (j : ℕ)
      → Costs {e = e} p 0 (record_end r status cause j)
  unfolding record_end
  record_end-Costs r status cause j = Costs-then 0 _ _ (Costs-state_at p r) λ s.
      Costs-then 0 _ _ (transact-Costs _)
        λ call. Costs-then 0 _ _ (Costs-state_at p r) (ended_webhook-Costs j status cause call)

  expect_cause-Costs :
      (channel : Text) (call cause : Option ℕ) → Costs {e = e} p 0 (expect_cause channel call cause)
  unfolding expect_cause
  expect_cause-Costs channel (some j) none = Costs-writes p _
  expect_cause-Costs channel (some j) (some cause) = Costs-pure p tt
  expect_cause-Costs channel none cause = Costs-pure p tt

  release_outbound-Costs : (r : ℕ) (channel : Text) → Costs {e = e} p 0 (release_outbound r channel)
  unfolding release_outbound
  release_outbound-Costs r channel =
      Costs-then 0 _ _ (request-Costs _ refl)
        λ _. Costs-then 0 _ _ (Costs-state_at p r) (λ s. Costs-for_some p 0 _ _ pop_outbound-Costs)

  forget-Costs : (r : ℕ) (channel : Text) → Costs {e = e} p 0 (forget r channel)
  unfolding forget
  forget-Costs r channel =
      Costs-then 0 _ _ (Costs-writes p _) (λ _. Costs-free p (λ k. cancel r (k tt)) (λ m k h. h tt))

  conclude-Costs :
      (r : ℕ) (status : CallStatus) (cause : Option ℕ) (s : CallState)
      → Costs {e = e} p 0 (conclude r status cause s)
  unfolding conclude
  conclude-Costs r status cause s =
      Costs-then 0 _ _ (Costs-for_some p 0 _ _ (release_outbound-Costs r)) λ _.
        Costs-then 0 _ _ (request-Costs _ refl) λ _. Costs-then 0 _ _ (Costs-state_at p r) λ t.
          Costs-then 0 _ _ (Costs-for_some p 0 _ _ (λ b. request-Costs _ refl)) λ _.
            Costs-then 0 _ _ (Costs-for_some p 0 _ _ (record_end-Costs r status cause)) λ _.
              Costs-then 0 _ _ (expect_cause-Costs s.channel_id s.call_id cause)
                (λ _. forget-Costs r s.channel_id)

  pub finish-Costs :
      (r : ℕ) (status : Option CallStatus) (cause : Option ℕ)
      → Costs {e = e} p 0 (finish r status cause)
  unfolding finish teardown
  finish-Costs r status cause = Costs-then 0 _ _ (Costs-state_at p r) λ s.
      Costs-when p 0 _ _
        (Costs-then 0 _ _ (Costs-set_state p r _) (λ _. conclude-Costs r _ cause s))

  pub reject-Costs :
      (r : ℕ) (prompt : Option Text) (status : CallStatus)
      → Costs {e = e} p 0 (reject r prompt status)
  unfolding reject
  reject-Costs r prompt status = Costs-then 0 _ _ (Costs-state_at p r) λ s.
      Costs-then 0 _ _ (try_request-Costs _ refl) λ up.
        Costs-then 0 _ _ (Costs-when p 0 up _ (Costs-for_some p 0 _ _ (play-Costs s.channel_id)))
          (λ _. finish-Costs r (some status) (some reject_cause))

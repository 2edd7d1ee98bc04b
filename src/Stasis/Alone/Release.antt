-- ===== src/Stasis/Alone/Release.antt =====
-- app/ari/stasis.py: what `_finish` releases.
use number_masking_service.Prelude.{
  ℕ, zero, suc, ◌≡◌, refl, sym, ap, subst, ◌∙◌, Option, none, some, List, [], ◌∷◌, ◌++◌, append-nil,
  true, Text, if_induction, arith,
}
use mathlib.Core.Option
use number_masking_service.Crypto.{decimal}
use number_masking_service.Settings.{webhooks_enabled}
use number_masking_service.Journal.{Journal, Call, CallStatus, finish_call}
use number_masking_service.Stasis.{
  Env, App, CallState, Await, Reply, Webhook, transaction, hangup, destroy_bridge, Async, for_some,
  nth, modify_at, dict_get, dict_pop, succeeded, call_ended, request, writes, cancel, ◌>>◌,
}
use number_masking_service.Stasis.Teardown.{
  conclude, record_end, finish_transaction, ended_webhook, expect_cause, release_outbound,
  pop_outbound, forget, present, with_journal,
}
use number_masking_service.Stasis.Alone.{
  Runs, announced, Runs-pure, Runs-bind, Runs-request, Runs-state_at, Runs-writes, Runs-emit,
  Runs-cancel, Runs-transact,
}

-- The requests for something that may be missing.
abbrev pub for_each {ℓ} : {A : Type ℓ} → (A → Await) → Option A → List Await
for_each f none = []
for_each f (some x) = f x ∷ []

-- What the end of a call asks for: both legs are hung up, the bridge is destroyed, the journal written.
abbrev pub releases : CallState → Option ℕ → List Await
releases s cause =
    for_each (λ c. hangup c none) (present s.outbound_channel_id)
    ++ hangup s.channel_id cause
      ∷ (for_each destroy_bridge (present s.bridge_id)
          ++ for_each (λ (i : ℕ). transaction) s.call_id)

-- The journal with the end of a call.
abbrev pub journalled : Option ℕ → Journal → ℕ → CallStatus → Option ℕ → CallState → Journal
journalled none j now status cause s = j
journalled (some i) j now status cause s =
    (finish_call j now i (some status) (Option.map decimal cause) s.session_id s.direction).1

pub nth-modify_at :
    (r : ℕ) (f : CallState → CallState) (heap : List CallState) (s : CallState)
    → nth r heap ≡ some s
    → nth r (modify_at r f heap) ≡ some (f s)
nth-modify_at r f [] s h = cc
nth-modify_at zero f (x ∷ heap) s h = cc
nth-modify_at (suc r) f (x ∷ heap) s h = nth-modify_at r f heap s h

dict_get-pop :
    {A : Type 0} (key : Text) (d : List (Text × A)) → dict_get key (dict_pop key d) ≡ none
dict_get-pop key [] = refl
dict_get-pop key ((k, x) ∷ d) = ground (arith, dict_get-pop key d)

module _ {e : Env} (o : Await → Reply) where
  -- The application stays, but for the dictionaries of the second legs and of the causes, and the
  -- announcements.
  record Keeps (a b : App e) : Type 0 where
    world : b.world ≡ a.world
    clock : b.clock ≡ a.clock
    heap : b.heap ≡ a.heap

  Keeps-refl : (a : App e) → Keeps a a
  Keeps-refl a = record { world = refl; clock = refl; heap = refl }

  -- The second leg is released where there is one.
  release-Runs :
      (a : App e) (r : ℕ) (t : CallState) (leg : Option Text)
      → nth r a.heap ≡ some t
      → (b : App e) × Runs o a
          (for_some leg (release_outbound r))
          tt
          b
          (for_each (λ c. hangup c none) leg)
        × Keeps a b
  unfolding for_some release_outbound pop_outbound
  release-Runs a r t none found = (a, record { runs = λ k. refl }, Keeps-refl a)
  release-Runs a r t (some c) found =
      let (b, last, keeps) = popped t.outbound_channel_id in
      (
        b,
        Runs-bind o a a b _ _ tt tt (hangup c none ∷ []) [] (Runs-request o a (hangup c none))
            (Runs-bind o a a b _ _ t tt [] [] (Runs-state_at o a r t found) last),
        keeps,
      )
    where
      popped :
          (leg : Option Text)
          → (b : App e) × Runs o a (for_some leg pop_outbound) tt b [] × Keeps a b
      popped none = (a, record { runs = λ k. refl }, Keeps-refl a)
      popped (some leg) = (_, Runs-writes o a _, record { world = refl; clock = refl; heap = refl })

  bridge-Runs :
      (a : App e) (bridge : Option Text)
      → Runs o a
          (for_some bridge (λ b. request (destroy_bridge b)))
          tt
          a
          (for_each destroy_bridge bridge)
  unfolding for_some
  bridge-Runs a none = record { runs = λ k. refl }
  bridge-Runs a (some b) = Runs-request o a (destroy_bridge b)

  announced-world : (a : App e) (w : Webhook) → (announced w a).world ≡ a.world
  announced-world a w =
      if_induction (λ (b : App e). b.world ≡ a.world) (webhooks_enabled e.settings) (λ h. refl)
        (λ h. refl)

  ended_webhook-Runs :
      (a : App e) (j : ℕ) (status : CallStatus) (cause : Option ℕ) (call : Option Call)
      (s : CallState)
      → (b : App e) × Runs o a (ended_webhook j status cause call s) tt b [] × (b.world ≡ a.world)
  unfolding ended_webhook
  ended_webhook-Runs a j status cause none s =
      let w = call_ended j s.session_id status none cause s.proxy_e164 in
      (announced w a, Runs-emit o a w, announced-world a w)
  ended_webhook-Runs a j status cause (some call) s =
      let w = call_ended j s.session_id call.status call.duration_sec cause s.proxy_e164 in
      (announced w a, Runs-emit o a w, announced-world a w)

  record_end-Runs :
      (a : App e) (r : ℕ) (t : CallState) (call : Option ℕ) (status : CallStatus) (cause : Option ℕ)
      → succeeded (o transaction) ≡ true
      → nth r a.heap ≡ some t
      → (b : App e) × Runs o a
          (for_some call (record_end r status cause))
          tt
          b
          (for_each (λ (i : ℕ). transaction) call)
        × (b.world.db.calls ≡ journalled call a.world.db.calls a.clock status cause t)
  unfolding for_some record_end finish_transaction with_journal
  record_end-Runs a r t none status cause good found = (a, record { runs = λ k. refl }, refl)
  record_end-Runs a r t (some i) status cause good found =
      let (call, j) =
        finish_call a.world.db.calls a.clock i (some status) (Option.map decimal cause) t.session_id
          t.direction in
      let closed = with_journal a j in
      let (b, last, same) = ended_webhook-Runs closed i status cause call t in
      (
        b,
        Runs-bind o a a b _ _ t tt [] (transaction ∷ []) (Runs-state_at o a r t found) (
            Runs-bind o a closed b _ _ call tt (transaction ∷ []) []
              (Runs-transact o a closed _ call good refl)
              (Runs-bind o closed closed b _ _ t tt [] [] (Runs-state_at o closed r t found) last)),
        ap (λ w. w.db.calls) same,
      )

  expect_cause-Runs :
      (a : App e) (channel : Text) (call cause : Option ℕ)
      → (b : App e) × Runs o a (expect_cause channel call cause) tt b [] × (b.world ≡ a.world)
  unfolding expect_cause
  expect_cause-Runs a channel (some i) none = (_, Runs-writes o a _, refl)
  expect_cause-Runs a channel (some i) (some cause) = (a, Runs-pure o a tt, refl)
  expect_cause-Runs a channel none cause = (a, Runs-pure o a tt, refl)

  -- The journal is written and the call is forgotten.
  forget-Runs :
      (a : App e) (r : ℕ) (s t : CallState) (status : CallStatus) (cause : Option ℕ)
      → succeeded (o transaction) ≡ true
      → nth r a.heap ≡ some t
      → (b : App e) × Runs o a
          (for_some s.call_id (record_end r status cause)
            >> (expect_cause s.channel_id s.call_id cause >> forget r s.channel_id))
          tt
          b
          (for_each (λ (i : ℕ). transaction) s.call_id)
        × (dict_get s.channel_id b.calls ≡ none)
        × (b.world.db.calls ≡ journalled s.call_id a.world.db.calls a.clock status cause t)
  unfolding forget
  forget-Runs a r s t status cause good found =
      let (c, first, journal) = record_end-Runs a r t s.call_id status cause good found in
      let (d, second, same) = expect_cause-Runs c s.channel_id s.call_id cause in
      let forgotten : App e = record d { calls = dict_pop s.channel_id d.calls } in
      let rest : Async e (Unit {0}) =
        expect_cause s.channel_id s.call_id cause >> forget r s.channel_id in
      let last : Runs o c rest tt forgotten [] = Runs-bind o c d forgotten _ _ tt tt [] [] second (
        Runs-bind o d forgotten forgotten
          (writes (λ (x : App e). record x { calls = dict_pop s.channel_id x.calls }))
          (λ _ k. cancel r (k tt)) tt tt [] [] (Runs-writes o d _) (Runs-cancel o forgotten r)) in
      (
        forgotten,
        subst (Runs o a (for_some s.call_id (record_end r status cause) >> rest) tt forgotten)
            (append-nil (for_each (λ (i : ℕ). transaction) s.call_id))
            (Runs-bind o a c forgotten (for_some s.call_id (record_end r status cause)) (λ _. rest)
              tt tt (for_each (λ (i : ℕ). transaction) s.call_id) [] first last),
        dict_get-pop s.channel_id d.calls,
        ap (λ w. w.db.calls) same ∙ journal,
      )

  pub conclude-Runs :
      (a : App e) (r : ℕ) (s t : CallState) (status : CallStatus) (cause : Option ℕ)
      → succeeded (o transaction) ≡ true
      → nth r a.heap ≡ some t
      → t.bridge_id ≡ s.bridge_id
      → (b : App e) × Runs o a (conclude r status cause s) tt b (releases s cause)
        × (dict_get s.channel_id b.calls ≡ none)
        × (b.world.db.calls ≡ journalled s.call_id a.world.db.calls a.clock status cause t)
  unfolding conclude
  conclude-Runs a r s t status cause good found same =
      let (b, first, keeps) = release-Runs a r t (present s.outbound_channel_id) found in
      let still : nth r b.heap ≡ some t = ap (nth r) keeps.heap ∙ found in
      let (c, last, gone, journal) = forget-Runs b r s t status cause good still in
      (
        c,
        Runs-bind o a b c _ _ tt tt _ _ first (
            Runs-bind o b b c _ _ tt tt (hangup s.channel_id cause ∷ []) _
              (Runs-request o b (hangup s.channel_id cause))
              (Runs-bind o b b c _ _ t tt [] _ (Runs-state_at o b r t still) (
                Runs-bind o b b c _ _ tt tt (for_each destroy_bridge (present s.bridge_id)) _
                  (subst
                    (λ x.
                      Runs o b (for_some (present x) (λ b. request (destroy_bridge b))) tt b
                        (for_each destroy_bridge (present s.bridge_id)))
                    (sym same) (bridge-Runs b (present s.bridge_id)))
                  last))),
        gone,
        journal
            ∙ ap (λ w. journalled s.call_id w.db.calls b.clock status cause t) keeps.world
            ∙ ap (λ now. journalled s.call_id a.world.db.calls now status cause t) keeps.clock,
      )

-- ===== src/Stasis/Budget/Limits.antt =====
-- app/ari/stasis.py: how often a caller is prompted and a leg is dialled.
use number_masking_service.Prelude.{
  ℕ, ◌+◌, ◌*◌, ◌≤◌, ◌≡◌, refl, Option, none, some, List, ◌∷◌, Bool, true, false, ◌||◌, Text, arith,
  count,
}
use number_masking_service.Journal.{CallStatus, rejected, answered_call_count}
use number_masking_service.Lookup.{Candidate}
use number_masking_service.Stasis.{
  Env, App, Await, Reply, done, answer_text, raised, originate, collect, create_bridge,
  add_to_bridge, stop, ◌>>=◌, transact, try_transaction, set_state, pure,
}
use number_masking_service.Stasis.Teardown.{reject}
use number_masking_service.Stasis.Connect.{connect, ask_for_code, limit_reached, within_limit}
use number_masking_service.Stasis.Budget.{asked, Within-asked}
use number_masking_service.Stasis.Budget.Ending.{routine, reject-Costs}
use number_masking_service.Stasis.Budget.Calling.{bridging, ask_for_code-Costs}

abbrev pub is_prompt : Await → Bool
is_prompt (collect r) = true
is_prompt _ = false

abbrev pub is_dial : Await → Bool
is_dial (originate o) = true
is_dial _ = false

-- What connects the caller to somebody.
abbrev pub connects : Await → Bool
connects c = bridging c || is_dial c

-- Requests that count neither as bridging nor as dialling are the rest.
none_connects : (c : Await) → routine c ≡ true → connects c ≡ false
none_connects (create_bridge b n) h = cc
none_connects (add_to_bridge b n) h = cc
none_connects (originate o) h = cc
none_connects _ h = refl

none_dials : (c : Await) → routine c ≡ true → is_dial c ≡ false
none_dials (originate o) h = cc
none_dials _ h = refl

none_prompts : (c : Await) → routine c ≡ true → is_prompt c ≡ false
none_prompts (collect r) h = cc
none_prompts _ h = refl

bridging_dials : (c : Await) → bridging c ≡ true → is_dial c ≡ false
bridging_dials (originate o) h = cc
bridging_dials _ h = refl

bridging_prompts : (c : Await) → bridging c ≡ true → is_prompt c ≡ false
bridging_prompts (collect r) h = cc
bridging_prompts _ h = refl

module _ {e : Env} where
  -- Whatever the replies are and whatever others do meanwhile, `_reject` itself makes no bridge, puts
  -- nothing into one and dials nobody.
  pub reject-unbridged :
      (inputs : List (Reply × App e)) (a : App e) (r : ℕ) (prompt : Option Text)
      (status : CallStatus)
      → count connects (asked inputs a (reject r prompt status (λ _. stop))) ≡ 0
  reject-unbridged inputs a r prompt status = omega (
    arith,
    Within-asked connects 0 inputs a (reject r prompt status (λ _. stop))
        ((reject-Costs connects none_connects r prompt status).within 0 (λ _. stop) (λ x. tt)),
  )

  -- A caller is asked for the PIN as often as the settings allow at most, and one leg at most is dialled
  -- for him, whatever is typed, whatever the replies are and whatever others do meanwhile.
  pub ask_for_code-bounded :
      (inputs : List (Reply × App e)) (a : App e) (r : ℕ) (candidates : List Candidate)
      → (count is_prompt (asked inputs a (ask_for_code r candidates (λ _. stop)))
          ≤ e.settings.dtmf_max_attempts)
        × (count is_dial (asked inputs a (ask_for_code r candidates (λ _. stop))) ≤ 1)
  ask_for_code-bounded inputs a r candidates =
      let max = e.settings.dtmf_max_attempts in
      (
        omega (
          arith,
          Within-asked is_prompt (max * 1 + 0 + 0) inputs a (ask_for_code r candidates (λ _. stop))
              ((ask_for_code-Costs is_prompt none_prompts bridging_prompts 0 (λ o. omega arith) 1
                  (λ s. omega arith) r candidates).within
                0 (λ _. stop) (λ x. tt)),
        ),
        omega (
          arith,
          Within-asked is_dial (max * 0 + 1 + 0) inputs a (ask_for_code r candidates (λ _. stop)) (
              (ask_for_code-Costs is_dial none_dials bridging_dials 1 (λ o. omega arith) 0
                  (λ s. omega arith) r candidates).within
                0 (λ _. stop) (λ x. tt)),
        ),
      )

  full-unbridged :
      (inputs : List (Reply × App e)) (b : App e) (r : ℕ) (candidate : Candidate)
      (already full : Bool)
      → full ≡ true
      → count connects (asked inputs b (within_limit r candidate already full (λ _. stop))) ≡ 0
  unfolding within_limit
  full-unbridged inputs b r candidate already true h =
      reject-unbridged inputs b r (some e.settings.sound_expired) rejected
  full-unbridged inputs b r candidate already false h = cc

  counted-unbridged :
      (inputs : List (Reply × App e)) (a b : App e) (reply : Reply) (r : ℕ) (candidate : Candidate)
      (already : Bool) (o : Option ℕ) (limit : ℕ)
      → o ≡ some limit
      → limit ≤ answered_call_count b.world.db.calls candidate.session_id
      → count connects (
          asked
            ((reply, b) ∷ inputs)
            a
            ((limit_reached candidate o >>= within_limit r candidate already) (λ _. stop)))
        ≡ 0
  unfolding limit_reached asked ◌>>=◌ transact try_transaction pure
  counted-unbridged inputs a b reply r candidate already none limit same le = cc
  counted-unbridged inputs a b done r candidate already (some l) limit same le =
      full-unbridged inputs b r candidate already _ (ground (arith, same))
  counted-unbridged inputs a b (answer_text t) r candidate already (some l) limit same le =
      full-unbridged inputs b r candidate already _ (ground (arith, same))
  counted-unbridged inputs a b raised r candidate already (some l) limit same le = refl

  -- Where as many calls of a session were answered as it may have, when they are counted, `_connect`
  -- makes no bridge and dials nobody.
  pub connect-limited :
      (inputs : List (Reply × App e)) (a b : App e) (reply : Reply) (r : ℕ) (candidate : Candidate)
      (already : Bool) (limit : ℕ)
      → candidate.max_calls ≡ some limit
      → limit ≤ answered_call_count b.world.db.calls candidate.session_id
      → count connects (asked ((reply, b) ∷ inputs) a (connect r candidate already (λ _. stop))) ≡ 0
  unfolding connect asked ◌>>=◌ set_state
  connect-limited inputs a b reply r candidate already limit same le =
      counted-unbridged inputs _ b reply r candidate already candidate.max_calls limit same le

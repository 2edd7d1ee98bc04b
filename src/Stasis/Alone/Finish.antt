-- ===== src/Stasis/Alone/Finish.antt =====
-- app/ari/stasis.py: one run of `_finish`, from its guard to its end.
use number_masking_service.Prelude.{
  ℕ, ◌≡◌, refl, ap, ◌∙◌, Option, none, some, List, [], append-nil, Bool, true, false, not, or_else,
}
use number_masking_service.Journal.{Journal, CallStatus}
use number_masking_service.Stasis.{
  Env, App, CallState, Await, Reply, stop, transaction, Async, nth, modify_at, dict_get, succeeded,
  when, set_state,
}
use number_masking_service.Stasis.Teardown.{finish, teardown, begin_finish, infer_status}
use number_masking_service.Stasis.Alone.{alone, Runs, Runs-bind, Runs-state_at, Runs-writes}
use number_masking_service.Stasis.Alone.Release.{releases, journalled, nth-modify_at, conclude-Runs}

journalled-begin_finish :
    (call : Option ℕ) (j : Journal) (now : ℕ) (resolved : CallStatus) (cause : Option ℕ)
    (s : CallState) (status : Option CallStatus)
    → journalled call j now resolved cause (begin_finish status s)
      ≡ journalled call j now resolved cause s
unfolding begin_finish
journalled-begin_finish none j now resolved cause s status = refl
journalled-begin_finish (some i) j now resolved cause s status = refl

module _ {e : Env} (o : Await → Reply) where
  teardown-Runs :
      (a : App e) (r : ℕ) (s : CallState) (status : Option CallStatus) (cause : Option ℕ)
      → succeeded (o transaction) ≡ true
      → nth r a.heap ≡ some s
      → (b : App e) × Runs o a (teardown r status cause s) tt b (releases s cause)
        × (dict_get s.channel_id b.calls ≡ none)
        × (b.world.db.calls
            ≡ journalled s.call_id a.world.db.calls a.clock
                (or_else status (infer_status s cause))
                cause
                s)
  unfolding teardown begin_finish set_state
  teardown-Runs a r s status cause good found =
      let marked : App e = record a { heap = modify_at r (begin_finish status) a.heap } in
      let (b, run, gone, journal) =
        conclude-Runs o marked r s (begin_finish status s) (or_else status (infer_status s cause))
          cause good (nth-modify_at r (begin_finish status) a.heap s found) refl in
      (
        b,
        Runs-bind o a marked b _ _ tt tt [] (releases s cause) (Runs-writes o a _) run,
        gone,
        journal ∙ journalled-begin_finish s.call_id a.world.db.calls a.clock _ cause s status,
      )

  when-Runs :
      (a b : App e) (t : Bool) (call : Async e (Unit {0})) (cs : List Await)
      → t ≡ true
      → Runs o a call tt b cs
      → Runs o a (when t call) tt b cs
  unfolding when
  when-Runs a b true call cs h run = run
  when-Runs a b false call cs h run = cc

  -- A call that nobody finishes yet is finished for good: when `_finish` runs without interference and
  -- the database takes its entry, then, even if every request to Asterisk fails, it hangs up the second
  -- leg, if there is one, hangs up the caller with the cause, destroys the bridge, if there is one, and
  -- writes the end of the call to the journal, in this order and nothing else, and it returns with the
  -- call forgotten.
  pub finish-releases :
      (a : App e) (r : ℕ) (s : CallState) (status : Option CallStatus) (cause : Option ℕ)
      → nth r a.heap ≡ some s
      → s.finishing ≡ false
      → succeeded (o transaction) ≡ true
      → (b : App e) × (alone o a (finish r status cause (λ _. stop)) ≡ (b, releases s cause))
        × (dict_get s.channel_id b.calls ≡ none)
        × (b.world.db.calls
            ≡ journalled s.call_id a.world.db.calls a.clock
                (or_else status (infer_status s cause))
                cause
                s)
  unfolding finish alone
  finish-releases a r s status cause found idle good =
      let (b, run, gone, journal) = teardown-Runs a r s status cause good found in
      let all =
        Runs-bind o a a b _ _ s tt [] (releases s cause) (Runs-state_at o a r s found)
          (when-Runs a b (not s.finishing) _ (releases s cause) (ap not idle) run) in
      (b, all.runs (λ _. stop) ∙ ap (λ cs. (b, cs)) (append-nil (releases s cause)), gone, journal)

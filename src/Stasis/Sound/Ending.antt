-- ===== src/Stasis/Sound/Ending.antt =====
-- app/ari/stasis.py: `_finish`, `_reject` and `_fail_channel` are in order.
use number_masking_service.Prelude.{
  ℕ, ◌-◌, ◌≤◌, ◌≡◌, refl, Option, none, some, List, not, Text, or_else, Bool-cases, inl, inr, arith,
  length, length-drop,
}
use number_masking_service.Journal.{Call, CallStatus}
use number_masking_service.Journal.Sequence.{finish_call-next_id}
use number_masking_service.Stasis.{
  Env, App, CallState, Coroutine, ◌>>=◌, state_at, set_state, writes, when, for_some, pure, nth,
  some_or_fail, dict_set,
}
use number_masking_service.Stasis.Teardown.{
  play, finish, teardown, conclude, record_end, ended_webhook, finish_transaction, expect_cause,
  release_outbound, pop_outbound, forget, reject, fail_channel, reject_cause, infer_status, trimmed,
  pending_cause_limit,
}
use number_masking_service.Stasis.Fine.{Fine, Sound, debt}
use number_masking_service.Stasis.Fine.Writes.{Moves-aside, Moves-begin_finish}
use number_masking_service.Stasis.Sound.{
  Sound-pure, Sound-bind, Sound-request, Sound-try_request, Sound-ask_text, Sound-state_at,
  Sound-writes, Sound-when, Sound-for_some, Sound-emit, Sound-journal,
}

trimmed-length : (entries : List (Text × ℕ)) → length (trimmed entries) ≤ pending_cause_limit
unfolding trimmed
trimmed-length entries = omega (arith, length-drop (length entries - pending_cause_limit) entries)

module _ {e : Env} (i : ℕ) where
  pub play-Sound : (t : ℕ) (channel media : Text) → Sound {e = e} i t (play channel media) t
  unfolding play
  play-Sound t channel media =
      Sound-bind i t t t _ _ (Sound-ask_text i t _ refl)
        (λ id. Sound-for_some i t _ _ (λ x. Sound-request i t _ refl))

  pub pop_outbound-Sound : (t : ℕ) (channel : Text) → Sound {e = e} i t (pop_outbound channel) t
  unfolding pop_outbound
  pop_outbound-Sound t channel =
      Sound-writes i t t _ (λ a. Moves-aside i a _ t refl refl (omega arith) (λ p. p))

  ended_webhook-Sound :
      (j : ℕ) (status : CallStatus) (cause : Option ℕ) (call : Option Call) (s : CallState)
      → Sound {e = e} i (debt i (some j)) (ended_webhook j status cause call s) 0
  unfolding ended_webhook
  ended_webhook-Sound j status cause none s = Sound-emit i _ 0 _ (omega arith)
  ended_webhook-Sound j status cause (some call) s = Sound-emit i _ 0 _ (omega arith)

  record_end-Sound :
      (r : ℕ) (status : CallStatus) (cause : Option ℕ) (j : ℕ)
      → Sound {e = e} i (debt i (some j)) (record_end r status cause j) 0
  unfolding record_end finish_transaction
  record_end-Sound r status cause j =
      let d = debt i (some j) in
      Sound-bind i d d 0 _ _ (Sound-state_at i d r) λ s.
        Sound-bind i d d 0 _ _
          (Sound-journal i d _ _ (λ a. omega (
            arith,
            finish_call-next_id a.world.db.calls a.clock j (some status) _ s.session_id s.direction,
          )))
          λ call.
            Sound-bind i d d 0 _ _ (Sound-state_at i d r) (ended_webhook-Sound j status cause call)

  record_ends-Sound :
      (call : Option ℕ) (r : ℕ) (status : CallStatus) (cause : Option ℕ)
      → Sound {e = e} i (debt i call) (for_some call (record_end r status cause)) 0
  unfolding for_some pure
  record_ends-Sound none r status cause = Sound-pure i 0 tt
  record_ends-Sound (some j) r status cause = record_end-Sound r status cause j

  expect_cause-Sound :
      (t : ℕ) (channel : Text) (call cause : Option ℕ)
      → Sound {e = e} i t (expect_cause channel call cause) t
  unfolding expect_cause
  expect_cause-Sound t channel (some j) none = Sound-writes i t t _ λ a.
      Moves-aside i a _ t refl refl (omega arith)
        (λ p. trimmed-length (dict_set channel j a.pending_cause))
  expect_cause-Sound t channel (some j) (some cause) = Sound-pure i t tt
  expect_cause-Sound t channel none cause = Sound-pure i t tt

  release_outbound-Sound :
      (t r : ℕ) (channel : Text) → Sound {e = e} i t (release_outbound r channel) t
  unfolding release_outbound
  release_outbound-Sound t r channel = Sound-bind i t t t _ _ (Sound-request i t _ refl) λ _.
      Sound-bind i t t t _ _ (Sound-state_at i t r)
        λ s. Sound-for_some i t _ _ (pop_outbound-Sound t)

  forget-Sound : (t r : ℕ) (channel : Text) → Sound {e = e} i t (forget r channel) t
  unfolding forget
  forget-Sound t r channel =
      Sound-bind i t t t _ _
        (Sound-writes i t t _ (λ a. Moves-aside i a _ t refl refl (omega arith) (λ p. p)))
        (λ _. record { fine = λ k h a. h tt a })

  conclude-Sound :
      (r : ℕ) (status : CallStatus) (cause : Option ℕ) (s : CallState)
      → Sound {e = e} i (debt i s.call_id) (conclude r status cause s) 0
  unfolding conclude
  conclude-Sound r status cause s =
      let d = debt i s.call_id in
      Sound-bind i d d 0 _ _ (Sound-for_some i d _ _ (release_outbound-Sound d r)) λ _.
        Sound-bind i d d 0 _ _ (Sound-request i d _ refl) λ _.
          Sound-bind i d d 0 _ _ (Sound-state_at i d r) λ t.
            Sound-bind i d d 0 _ _ (Sound-for_some i d _ _ (λ b. Sound-request i d _ refl)) λ _.
              Sound-bind i d 0 0 _ _ (record_ends-Sound s.call_id r status cause) λ _.
                Sound-bind i 0 0 0 _ _ (expect_cause-Sound 0 s.channel_id s.call_id cause)
                  (λ _. forget-Sound 0 r s.channel_id)

  -- Behind the guard the call begins to finish, in the step in which the guard was passed.
  guarded :
      (r : ℕ) (status : Option CallStatus) (cause : Option ℕ) (s : CallState) (a : App e)
      → nth r a.heap ≡ some s
      → (k : Unit {0} → Coroutine e) → ((x : Unit) (b : App e) → Fine i 0 (k x) b)
      → Fine i 0 (when (not s.finishing) (teardown r status cause s) k) a
  unfolding when teardown ◌>>=◌ set_state writes
  guarded r status cause s a found k h = elim (Bool-cases s.finishing) [
    | inl busy ↦ rw busy (h tt a)
    | inr idle ↦ rw idle (
      debt i s.call_id,
      Moves-begin_finish i a r s status found idle,
      (conclude-Sound r (or_else status (infer_status s cause)) cause s).fine k h _,
    )
  ]

  found_or_fail :
      (r : ℕ) (status : Option CallStatus) (cause : Option ℕ) (o : Option CallState) (a : App e)
      → nth r a.heap ≡ o
      → (k : Unit {0} → Coroutine e) → ((x : Unit) (b : App e) → Fine i 0 (k x) b)
      → Fine i 0 (some_or_fail o (λ s. when (not s.finishing) (teardown r status cause s) k)) a
  unfolding some_or_fail
  found_or_fail r status cause none a found k h = tt
  found_or_fail r status cause (some s) a found k h = guarded r status cause s a found k h

  pub finish-Sound :
      (r : ℕ) (status : Option CallStatus) (cause : Option ℕ)
      → Sound {e = e} i 0 (finish r status cause) 0
  unfolding finish ◌>>=◌ state_at
  finish-Sound r status cause = record {
    fine = λ k h a. found_or_fail r status cause (nth r a.heap) a refl k h;
  }

  pub reject-Sound :
      (r : ℕ) (prompt : Option Text) (status : CallStatus)
      → Sound {e = e} i 0 (reject r prompt status) 0
  unfolding reject
  reject-Sound r prompt status = Sound-bind i 0 0 0 _ _ (Sound-state_at i 0 r) λ s.
      Sound-bind i 0 0 0 _ _ (Sound-try_request i 0 _ refl) λ ok.
        Sound-bind i 0 0 0 _ _
          (Sound-when i 0 ok _ (Sound-for_some i 0 _ _ (play-Sound 0 s.channel_id)))
          (λ _. finish-Sound r (some status) (some reject_cause))

  pub fail_channel-Sound : (channel : Text) → Sound {e = e} i 0 (fail_channel channel) 0
  unfolding fail_channel
  fail_channel-Sound channel = Sound-bind i 0 0 0 _ _ (Sound-try_request i 0 _ refl) λ ok.
      Sound-when i 0 ok _ (
        Sound-bind i 0 0 0 _ _ (play-Sound 0 channel e.settings.sound_error)
          (λ _. Sound-request i 0 _ refl))

-- ===== src/Stasis/Sound.antt =====
-- app/ari/stasis.py: how the order of a coroutine follows from that of its parts.
pub mod Ending
pub mod Calling
pub mod Handling
use number_masking_service.Prelude.{
  ℕ, ◌+◌, ◌≤◌, ◌≡◌, refl, ap, Option, none, some, List, [], ◌∷◌, ◌++◌, Bool, true, false, not, Text,
  is_empty, if_induction, if◌then◌else◌, Bool-cases, Option-cases, inl, inr, arith, subst, length,
}
use number_masking_service.Errors.{Result, ok, err, ok-injective}
use number_masking_service.Settings.{webhooks_enabled}
use number_masking_service.Journal.{Journal}
use number_masking_service.Stasis.{
  Env, App, CallState, Await, Reply, Webhook, Coroutine, wait, look, stop, Async, ◌>>=◌, ◌>>◌, pure,
  request, try_request, ask_text, reads, state_at, set_state, writes, when, for_some, emit, nth,
  modify_at, succeeded, reply_text, ok_or_none, try_transaction, transact, some_or_fail, committed,
  transaction, originate, spawn, cancel,
}
use number_masking_service.Stasis.Teardown.{with_journal, pending_cause_limit}
use number_masking_service.Stasis.Fine.{dialled, Proper, Fine, Sound, Moves, next_row, is_end}
use number_masking_service.Stasis.Fine.Writes.{
  KeepsCall, Moves-aside, Moves-state, Moves-webhook, Moves-forgive,
}

Proper-plain : {e : Env} (a : App e) (c : Await) → dialled c ≡ none → Proper a c
Proper-plain a c h = rw h tt

module _ {e : Env} (i t : ℕ) where
  pub Sound-pure {ℓ} : {A : Type ℓ} (x : A) → Sound {e = e} i t (pure x) t
  unfolding pure
  Sound-pure x = record { fine = λ k h a. h x a }

  pub Sound-bind {ℓ κ} :
      {A : Type ℓ} {B : Type κ} (u v : ℕ) (call : Async e A) (rest : A → Async e B)
      → Sound i t call u
      → ((x : A) → Sound i u (rest x) v)
      → Sound i t (call >>= rest) v
  unfolding ◌>>=◌
  Sound-bind u v call rest h g = record {
    fine = λ k f a. h.fine (λ x. rest x k) (λ x b. (g x).fine k f b) a;
  }

  pub Sound-request : (c : Await) → dialled c ≡ none → Sound {e = e} i t (request c) t
  unfolding request
  Sound-request c p = record { fine = λ k h a. (Proper-plain a c p, λ reply b. h tt b) }

  pub Sound-try_request : (c : Await) → dialled c ≡ none → Sound {e = e} i t (try_request c) t
  unfolding try_request
  Sound-try_request c p = record {
    fine = λ k h a. (Proper-plain a c p, λ reply b. h (succeeded reply) b);
  }

  pub Sound-ask_text : (c : Await) → dialled c ≡ none → Sound {e = e} i t (ask_text c) t
  unfolding ask_text
  Sound-ask_text c p = record {
    fine = λ k h a. (Proper-plain a c p, λ reply b. h (reply_text reply) b);
  }

  pub Sound-reads {ℓ} : {A : Type ℓ} (f : App e → A) → Sound i t (reads f) t
  unfolding reads
  Sound-reads f = record { fine = λ k h a. h (f a) a }

  pub Sound-some_or_fail {ℓ} : {A : Type ℓ} (o : Option A) → Sound {e = e} i t (some_or_fail o) t
  unfolding some_or_fail
  Sound-some_or_fail none = record { fine = λ k h a. tt }
  Sound-some_or_fail (some x) = record { fine = λ k h a. h x a }

  pub Sound-state_at : (r : ℕ) → Sound {e = e} i t (state_at r) t
  unfolding state_at
  Sound-state_at r = record { fine = λ k h a. (Sound-some_or_fail (nth r a.heap)).fine k h a }

  pub Sound-writes :
      (u : ℕ) (f : App e → App e) → ((a : App e) → Moves i a t (f a) u) → Sound i t (writes f) u
  unfolding writes
  Sound-writes u f m = record { fine = λ k h a. (u, m a, h tt (f a)) }

  pub Sound-set_state :
      (r : ℕ) (f : CallState → CallState) → KeepsCall f → Sound {e = e} i t (set_state r f) t
  unfolding set_state
  Sound-set_state r f keep = Sound-writes t _ (λ a. Moves-state i a t r f keep)

  pub Sound-when :
      (b : Bool) (call : Async e (Unit {0})) → Sound i t call t → Sound i t (when b call) t
  unfolding when
  Sound-when b call s = record {
    fine = λ k h a. if_induction (λ p. Fine i t p a) b (λ good. s.fine k h a) (λ bad. h tt a);
  }

  pub Sound-for_some {ℓ} :
      {A : Type ℓ} (o : Option A) (call : A → Async e (Unit {0}))
      → ((x : A) → Sound i t (call x) t)
      → Sound i t (for_some o call) t
  unfolding for_some
  Sound-for_some none call s = record { fine = λ k h a. h tt a }
  Sound-for_some (some x) call s = s x

  pub Sound-if {ℓ} :
      {A : Type ℓ} (u : ℕ) (b : Bool) (this other : Async e A)
      → Sound i t this u
      → Sound i t other u
      → Sound i t (if b then this else other) u
  Sound-if u b this other y n = if_induction (λ m. Sound i t m u) b (λ h. y) (λ h. n)

  -- A transaction that only does moves.
  pub Sound-try_transaction {ℓ} :
      {A : Type ℓ} (f : App e → Result (A × App e))
      → ((a b : App e) (x : A) → f a ≡ ok (x, b) → Moves i a t b t)
      → Sound i t (try_transaction f) t
  unfolding try_transaction
  Sound-try_transaction {A} f m = record {
    fine = λ k h a. (
      tt,
      λ reply b.
          if_induction (λ p. Fine i t p b) (succeeded reply) (λ good. commits (f b) b (m b) k h)
            (λ bad. h none b),
    );
  }
    where
      commits :
          (r : Result (A × App e)) (b : App e)
          → ((c : App e) (x : A) → r ≡ ok (x, c) → Moves i b t c t)
          → (k : Option A → Coroutine e) → ((x : Option A) (c : App e) → Fine i t (k x) c)
          → Fine i t (committed r (λ x. k (ok_or_none x))) b
      commits (ok (x, c)) b m k h = (t, m c x refl, h (some x) c)
      commits (err x) b m k h = h none b

  pub Sound-transact {ℓ} :
      {A : Type ℓ} (f : App e → Result (A × App e))
      → ((a b : App e) (x : A) → f a ≡ ok (x, b) → Moves i a t b t)
      → Sound i t (transact f) t
  unfolding transact
  Sound-transact f m = record {
    fine = λ k h a.
        (Sound-try_transaction f m).fine (λ x. some_or_fail x k)
          (λ x b. (Sound-some_or_fail x).fine k h b) a;
  }

  pub Sound-emit :
      (u : ℕ) (w : Webhook) → t ≡ u + (if is_end i w then 1 else 0) → Sound {e = e} i t (emit w) u
  unfolding emit
  Sound-emit u w h = Sound-writes u _ λ a.
      if_induction (λ b. Moves i a t b u) (webhooks_enabled e.settings)
        (λ good. Moves-webhook i a t u w h) (λ bad. Moves-forgive i a t u (ground arith))

  -- A transaction that only writes the journal.
  pub Sound-journal {ℓ} :
      {A : Type ℓ} (x : App e → A) (j : App e → Journal)
      → ((a : App e) → next_row a ≤ (j a).next_id)
      → Sound i t (transact (λ a. ok (x a, with_journal a (j a)))) t
  unfolding with_journal
  Sound-journal x j n =
      Sound-transact (λ a. ok (x a, with_journal a (j a)))
        λ a b y h.
          subst (λ c. Moves i a t c t) (ap (λ p. p.1) (ok-injective h))
            (Moves-aside i a (with_journal a (j a)) t refl refl (n a) (λ p. p))

  -- A transaction that only reads.
  pub Sound-read {ℓ} :
      {A : Type ℓ} (x : App e → A) → Sound {e = e} i t (transact (λ a. ok (x a, a))) t
  Sound-read x =
      Sound-transact (λ a. ok (x a, a))
        λ a b y h.
          subst (λ c. Moves i a t c t) (ap (λ p. p.1) (ok-injective h))
            (Moves-forgive i a t t (omega arith))

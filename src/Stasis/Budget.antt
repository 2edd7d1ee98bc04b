-- ===== src/Stasis/Budget.antt =====
-- app/ari/stasis.py: how often a coroutine makes a request of some kind, whatever the replies are and
-- whatever others do while it waits.
pub mod Ending
pub mod Calling
pub mod Limits
use number_masking_service.Prelude.{
  ℕ, ◌+◌, ◌≤◌, ◌≡◌, refl, Option, none, some, List, [], ◌∷◌, Bool, true, false, if◌then◌else◌,
  if_induction, arith, count,
}
use number_masking_service.Errors.{Result, ok, err}
use number_masking_service.Stasis.{
  Env, App, CallState, Await, Reply, Webhook, Coroutine, stop, look, act, spawn, cancel, wait,
  transaction, Async, ◌>>=◌, pure, request, try_request, ask_text, reads, state_at, set_state,
  writes, when, for_some, emit, nth, succeeded, reply_text, ok_or_none, try_transaction, transact,
  some_or_fail, committed,
}

abbrev pub cost : (Await → Bool) → Await → ℕ
cost p c = if p c then 1 else 0

-- What one run of a coroutine asks for: each reply comes with the application as it then is.
unfoldable pub asked : {e : Env} → List (Reply × App e) → App e → Coroutine e → List Await
asked inputs a stop = []
asked inputs a (look k) = asked inputs a (k a)
asked inputs a (act f p) = asked inputs (f a) p
asked inputs a (spawn o p q) = asked inputs a q
asked inputs a (cancel r p) = asked inputs a p
asked [] a (wait c k) = c ∷ []
asked ((reply, b) ∷ inputs) a (wait c k) = c ∷ asked inputs b (k reply)

module _ {e : Env} (p : Await → Bool) where
  -- At most `n` requests of the kind, the tasks that it starts included.
  abbrev pub Within : ℕ → Coroutine e → Type 0
  Within n stop = Unit
  Within n (look k) = (a : App e) → Within n (k a)
  Within n (act f q) = Within n q
  Within n (spawn o q r) = (u v : ℕ) × (u + v ≤ n) × Within u q × Within v r
  Within n (cancel r q) = Within n q
  Within n (wait c k) = (m : ℕ) × (cost p c + m ≤ n) × ((reply : Reply) → Within m (k reply))

  Within-mono : (n m : ℕ) (q : Coroutine e) → n ≤ m → Within n q → Within m q
  Within-mono n m stop le h = tt
  Within-mono n m (look k) le h = λ a. Within-mono n m (k a) le (h a)
  Within-mono n m (act f q) le h = Within-mono n m q le h
  Within-mono n m (spawn o q r) le (u, v, small, h, k) = (u, v, omega arith, h, k)
  Within-mono n m (cancel r q) le h = Within-mono n m q le h
  Within-mono n m (wait c k) le (l, small, h) = (l, omega arith, h)

  pub Within-asked :
      (n : ℕ) (inputs : List (Reply × App e)) (a : App e) (q : Coroutine e)
      → Within n q
      → count p (asked inputs a q) ≤ n
  unfolding asked
  Within-asked n inputs a stop h = omega arith
  Within-asked n inputs a (look k) h = Within-asked n inputs a (k a) (h a)
  Within-asked n inputs a (act f q) h = Within-asked n inputs (f a) q h
  Within-asked n inputs a (spawn o q r) (u, v, small, h, k) =
      omega (arith, Within-asked v inputs a r k)
  Within-asked n inputs a (cancel r q) h = Within-asked n inputs a q h
  Within-asked n [] a (wait c k) (m, small, h) = ground arith
  Within-asked n ((reply, b) ∷ inputs) a (wait c k) (m, small, h) =
      ground (arith, Within-asked m inputs b (k reply) (h reply))

-- A function makes at most `n` such requests before it returns.
pub record Costs {ℓ} {e : Env} {A : Type ℓ} (p : Await → Bool) (n : ℕ) (call : Async e A)
    : Type ℓ where
  pub within :
      (m : ℕ) (k : A → Coroutine e) → ((x : A) → Within p m (k x)) → Within p (n + m) (call k)

module _ {e : Env} (p : Await → Bool) where
  pub Costs-free {ℓ} :
      {A : Type ℓ} (call : Async e A)
      → ((m : ℕ) (k : A → Coroutine e) → ((x : A) → Within p m (k x)) → Within p m (call k))
      → Costs p 0 call
  Costs-free call f = record {
    within = λ m k h. Within-mono p m (0 + m) (call k) (omega arith) (f m k h);
  }

  pub Costs-pure {ℓ} : {A : Type ℓ} (x : A) → Costs {e = e} p 0 (pure x)
  unfolding pure
  Costs-pure x = Costs-free (pure x) (λ m k h. h x)

  pub Costs-le {ℓ} :
      {A : Type ℓ} (n m : ℕ) (call : Async e A) → n ≤ m → Costs p n call → Costs p m call
  Costs-le n m call le c = record {
    within = λ l k h. Within-mono p (n + l) (m + l) (call k) (omega arith) (c.within l k h);
  }

  pub Costs-bind {ℓ κ} :
      {A : Type ℓ} {B : Type κ} (n m : ℕ) (call : Async e A) (rest : A → Async e B)
      → Costs p n call
      → ((x : A) → Costs p m (rest x))
      → Costs p (n + m) (call >>= rest)
  unfolding ◌>>=◌
  Costs-bind n m call rest c d = record {
    within = λ l k h.
        Within-mono p (n + (m + l)) (n + m + l) (call (λ x. rest x k)) (omega arith)
          (c.within (m + l) (λ x. rest x k) (λ x. (d x).within l k h));
  }

  pub Costs-request : (c : Await) → Costs {e = e} p (cost p c) (request c)
  unfolding request
  Costs-request c = record { within = λ m k h. (m, omega arith, λ reply. h tt) }

  pub Costs-try_request : (c : Await) → Costs {e = e} p (cost p c) (try_request c)
  unfolding try_request
  Costs-try_request c = record { within = λ m k h. (m, omega arith, λ reply. h (succeeded reply)) }

  pub Costs-ask_text : (c : Await) → Costs {e = e} p (cost p c) (ask_text c)
  unfolding ask_text
  Costs-ask_text c = record { within = λ m k h. (m, omega arith, λ reply. h (reply_text reply)) }

  pub Costs-reads {ℓ} : {A : Type ℓ} (f : App e → A) → Costs p 0 (reads f)
  unfolding reads
  Costs-reads f = Costs-free (reads f) (λ m k h a. h (f a))

  Within-some_or_fail {ℓ} :
      {A : Type ℓ} (o : Option A) (m : ℕ) (k : A → Coroutine e)
      → ((x : A) → Within p m (k x))
      → Within p m (some_or_fail o k)
  unfolding some_or_fail
  Within-some_or_fail none m k h = tt
  Within-some_or_fail (some x) m k h = h x

  pub Costs-some_or_fail {ℓ} : {A : Type ℓ} (o : Option A) → Costs {e = e} p 0 (some_or_fail o)
  unfolding some_or_fail
  Costs-some_or_fail o = Costs-free (some_or_fail o) (Within-some_or_fail o)

  pub Costs-state_at : (r : ℕ) → Costs {e = e} p 0 (state_at r)
  unfolding state_at
  Costs-state_at r = Costs-free (state_at r) (λ m k h a. Within-some_or_fail (nth r a.heap) m k h)

  pub Costs-writes : (f : App e → App e) → Costs p 0 (writes f)
  unfolding writes
  Costs-writes f = Costs-free (writes f) (λ m k h. h tt)

  pub Costs-set_state : (r : ℕ) (f : CallState → CallState) → Costs {e = e} p 0 (set_state r f)
  unfolding set_state
  Costs-set_state r f = Costs-writes _

  pub Costs-emit : (w : Webhook) → Costs {e = e} p 0 (emit w)
  unfolding emit
  Costs-emit w = Costs-writes _

  pub Costs-when :
      (n : ℕ) (b : Bool) (call : Async e (Unit {0})) → Costs p n call → Costs p n (when b call)
  unfolding when
  Costs-when n b call c = record {
    within = λ m k h.
        if_induction (Within p (n + m)) b (λ good. c.within m k h)
          (λ bad. Within-mono p m (n + m) (k tt) (omega arith) (h tt));
  }

  pub Costs-for_some {ℓ} :
      {A : Type ℓ} (n : ℕ) (o : Option A) (call : A → Async e (Unit {0}))
      → ((x : A) → Costs p n (call x))
      → Costs p n (for_some o call)
  unfolding for_some
  Costs-for_some n none call c = record {
    within = λ m k h. Within-mono p m (n + m) (k tt) (omega arith) (h tt);
  }
  Costs-for_some n (some x) call c = c x

  pub Costs-if {ℓ} :
      {A : Type ℓ} (n : ℕ) (b : Bool) (this other : Async e A)
      → Costs p n this
      → Costs p n other
      → Costs p n (if b then this else other)
  Costs-if n b this other c d = if_induction (Costs p n) b (λ good. c) (λ bad. d)

  pub Costs-transact {ℓ} :
      {A : Type ℓ} (f : App e → Result (A × App e)) → Costs p (cost p transaction) (transact f)
  unfolding transact try_transaction
  Costs-transact {A} f = record {
    within = λ m k h. (
      m,
      omega arith,
      λ reply.
          if_induction (Within p m) (succeeded reply)
            (λ good a. commits m (f a) (λ x. some_or_fail x k) (λ x. Within-some_or_fail x m k h))
            (λ bad. Within-some_or_fail none m k h),
    );
  }
    where
      commits :
          (m : ℕ) (r : Result (A × App e)) (k : Option A → Coroutine e)
          → ((x : Option A) → Within p m (k x))
          → Within p m (committed r (λ x. k (ok_or_none x)))
      commits m (ok (x, c)) k h = h (some x)
      commits m (err x) k h = h none

-- ===== src/Stasis/Invariant.antt =====
-- app/ari/stasis.py: what holds in every state that the application may reach.
use number_masking_service.Prelude.{
  ℕ, ◌+◌, ◌≤◌, ◌≡◌, refl, Option, none, some, List, [], ◌∷◌, ◌++◌, true, if_induction, Text, All,
  All-append, All-mono, arith, length, subst,
}
use number_masking_service.Stasis.{
  Env, App, Reply, Origination, Coroutine, stop, look, act, spawn, cancel, wait,
}
use number_masking_service.Stasis.Teardown.{pending_cause_limit}
use number_masking_service.Stasis.Fine.{
  ends, flags, knows, dialled, Named, Proper, Fresh, Moves, Fine,
}
use number_masking_service.Stasis.Fine.Writes.{Moves-forgive, Moves-aside}
use number_masking_service.Stasis.Sound.Handling.{handle_event-Sound}
use number_masking_service.Stasis.System.{
  Task, System, owned_by, cancel_tasks, settle, at_time, Step, receive, resume_task, give_up,
  elsewhere, Reach, start, next,
}

module _ {e : Env} (i : ℕ) where
  -- The tasks that wait are in order, and owe the announcement of `m` ends.
  abbrev Held : List (Task e) → ℕ → Type 0
  Held [] m = Unit
  Held (t ∷ ts) m =
      (u n : ℕ) × (u + n ≤ m)
      × ((reply : Reply) (a : App e) → Fine i u (t.resume reply) a)
      × Held ts n

  -- The application is in order while a coroutine runs that owes `t`.
  pub record Orderly (s : System e) (t : ℕ) : Type 0 where
    pub owed : ℕ
    pub held : Held s.tasks owed
    pub paid : ends i s.app.outbox + t + owed ≤ flags i s.app.heap
    pub fresh : Fresh i s.app
    pub bounded : length s.app.pending_cause ≤ pending_cause_limit
    pub traced : All (Proper s.app) s.trace

  Named-mono :
      (a b : App e) (o : Option Origination)
      → ((channel proxy : Text)
          → knows a.heap channel proxy ≡ true
          → knows b.heap channel proxy ≡ true)
      → Named a o
      → Named b o
  Named-mono a b none k h = tt
  Named-mono a b (some o) k (proxy, known, same) = (proxy, k o.originator proxy known, same)

  -- A write of the coroutine that runs.
  Orderly-Moves :
      (s : System e) (t u : ℕ) (b : App e)
      → Moves i s.app t b u
      → Orderly s t
      → Orderly (record s { app = b }) u
  Orderly-Moves s t u b m h = record {
    owed = h.owed;
    held = h.held;
    paid = omega (arith, m.paid, h.paid);
    fresh = m.fresh h.fresh;
    bounded = m.bounded h.bounded;
    traced = All-mono _ _ s.trace (λ c. Named-mono s.app b (dialled c) m.known) h.traced;
  }

  Held-cancel : (r : ℕ) (ts : List (Task e)) (m : ℕ) → Held ts m → Held (cancel_tasks r ts) m
  unfolding cancel_tasks
  Held-cancel r [] m h = tt
  Held-cancel r (t ∷ ts) m (u, n, le, fine, rest) =
      if_induction (λ xs. Held xs m) (owned_by r t.owner)
        (λ mine. Held-more (cancel_tasks r ts) n m (omega arith) (Held-cancel r ts n rest))
        (λ other. (u, n, le, fine, Held-cancel r ts n rest))
    where
      Held-more : (ts : List (Task e)) (n m : ℕ) → n ≤ m → Held ts n → Held ts m
      Held-more [] n m le h = tt
      Held-more (t ∷ ts) n m le (u, k, small, fine, rest) = (u, k, omega arith, fine, rest)

  -- Other tasks wait, which owe no more.
  Orderly-tasks :
      (s : System e) (ts : List (Task e)) (t m : ℕ)
      → Held ts m
      → (h : Orderly s t) → t + m ≤ t + h.owed
      → Orderly (record s { tasks = ts }) t
  Orderly-tasks s ts t m held h le = record {
    owed = m;
    held = held;
    paid = omega (arith, h.paid);
    fresh = h.fresh;
    bounded = h.bounded;
    traced = h.traced;
  }

  pub settle-Orderly :
      (p : Coroutine e) (owner : Option ℕ) (s : System e) (t : ℕ)
      → Orderly s t
      → Fine i t p s.app
      → Orderly (settle p owner s) 0
  unfolding settle
  settle-Orderly stop owner s t h f =
      Orderly-Moves s t 0 s.app (Moves-forgive i s.app t 0 (omega arith)) h
  settle-Orderly (look k) owner s t h f = settle-Orderly (k s.app) owner s t h f
  settle-Orderly (act g p) owner s t h (u, m, f) =
      settle-Orderly p owner _ u (Orderly-Moves s t u (g s.app) m h) f
  settle-Orderly (spawn o p q) owner s t h (f, g) =
      settle-Orderly q owner _ t
        (Orderly-tasks s _ t h.owed (0, h.owed, omega arith, (λ reply a. f a), h.held) h
          (omega arith))
        g
  settle-Orderly (cancel r p) owner s t h f =
      settle-Orderly p owner _ t
        (Orderly-tasks s _ t h.owed (Held-cancel r s.tasks h.owed h.held) h (omega arith)) f
  settle-Orderly (wait c k) owner s t h (proper, f) = record {
    owed = t + h.owed;
    held = (t, h.owed, omega arith, f, h.held);
    paid = omega (arith, h.paid);
    fresh = h.fresh;
    bounded = h.bounded;
    traced = All-append _ s.trace (c ∷ []) h.traced (proper, tt);
  }

  -- The task that is taken out owes `u` of what all of them owe.
  Held-taken :
      (before after : List (Task e)) (t : Task e) (m : ℕ)
      → Held (before ++ t ∷ after) m
      → (u n : ℕ) × (u + n ≤ m)
        × ((reply : Reply) (a : App e) → Fine i u (t.resume reply) a)
        × Held (before ++ after) n
  Held-taken [] after t m h = h
  Held-taken (x ∷ before) after t m (u, n, le, fine, rest) =
      let (v, k, small, runs, others) = Held-taken before after t n rest in
      (v, u + k, omega arith, runs, (u, k, omega arith, fine, others))

  -- A task is taken out, and what it owes is owed by the coroutine that runs.
  pub Orderly-taken :
      (before after : List (Task e)) (t : Task e) (s : System e)
      → s.tasks ≡ before ++ t ∷ after
      → Orderly s 0
      → (u : ℕ) × Orderly (record s { tasks = before ++ after }) u
        × ((reply : Reply) (a : App e) → Fine i u (t.resume reply) a)
  Orderly-taken before after t s same h =
      let (u, n, le, fine, rest) =
        Held-taken before after t h.owed (subst (λ ts. Held ts h.owed) same h.held) in
      (
        u,
        record {
          owed = n;
          held = rest;
          paid = omega (arith, h.paid);
          fresh = h.fresh;
          bounded = h.bounded;
          traced = h.traced;
        },
        fine,
      )

  at_time-Orderly : (now : ℕ) (s : System e) (t : ℕ) → Orderly s t → Orderly (at_time now s) t
  unfolding at_time
  at_time-Orderly now s t h =
      Orderly-Moves s t t _
        (Moves-aside i s.app (record s.app { clock = now }) t refl refl (omega arith) (λ p. p)) h

  pub Step-Orderly : (s t : System e) → Step s t → Orderly s 0 → Orderly t 0
  unfolding at_time
  Step-Orderly s _ (receive now event) h =
      settle-Orderly _ none _ 0 (at_time-Orderly now s 0 h)
        ((handle_event-Sound i event).fine _ (λ x b. tt) _)
  Step-Orderly s _ (resume_task now before after t reply same) h =
      let (u, order, fine) = Orderly-taken before after t s same h in
      settle-Orderly _ t.owner _ u (at_time-Orderly now _ u order) (fine reply _)
  Step-Orderly s _ (give_up before after t same) h =
      let (u, order, fine) = Orderly-taken before after t s same h in
      Orderly-Moves _ u 0 s.app (Moves-forgive i s.app u 0 (omega arith)) order
  Step-Orderly s _ (elsewhere world later) h =
      Orderly-Moves s 0 0 _ (Moves-aside i s.app _ 0 refl refl later (λ p. p)) h

  pub Reach-Orderly : {s : System e} → Reach s → Orderly s 0
  Reach-Orderly (start world now) = record {
    owed = 0;
    held = tt;
    paid = omega arith;
    fresh = record { single = omega arith; unborn = λ m. refl };
    bounded = omega arith;
    traced = tt;
  }
  Reach-Orderly (next {s} {t} before step) = Step-Orderly s t step (Reach-Orderly before)

-- ===== src/Stasis/Alone.antt =====
-- app/ari/stasis.py: a coroutine that runs while no other one does.
pub mod Release
pub mod Finish
use number_masking_service.Prelude.{
  ℕ, ◌≡◌, refl, sym, ap, subst, ◌∙◌, Option, none, some, List, [], ◌∷◌, ◌++◌, append_assoc, Bool,
  true, false, if◌then◌else◌, if_induction, Text,
}
use number_masking_service.Errors.{Result, ok, err}
use number_masking_service.Settings.{webhooks_enabled}
use number_masking_service.Stasis.{
  Env, App, CallState, Await, Reply, Webhook, Coroutine, stop, look, act, spawn, cancel, wait,
  transaction, Async, ◌>>=◌, pure, request, state_at, set_state, writes, emit, nth, modify_at,
  succeeded, transact, try_transaction, some_or_fail, committed, ok_or_none,
}

-- What is there at the end, and what was asked for on the way, where `o` gives the replies.
unfoldable pub alone : {e : Env} → (Await → Reply) → App e → Coroutine e → App e × List Await
alone o a stop = (a, [])
alone o a (look k) = alone o a (k a)
alone o a (act f p) = alone o (f a) p
alone o a (spawn owner p q) = alone o a q
alone o a (cancel r p) = alone o a p
alone o a (wait c k) = let (b, cs) = alone o a (k (o c)) in (b, c ∷ cs)

abbrev pub before : {e : Env} → List Await → App e × List Await → App e × List Await
before cs (b, ds) = (b, cs ++ ds)

-- A function that returns `x` and leaves `b`, and asks for `cs`.
pub record Runs {ℓ} {e : Env} {A : Type ℓ} (o : Await → Reply) (a : App e) (call : Async e A)
    (x : A) (b : App e) (cs : List Await) : Type ℓ where
  pub runs : (k : A → Coroutine e) → alone o a (call k) ≡ before cs (alone o b (k x))

abbrev pub announced : {e : Env} → Webhook → App e → App e
announced {e} w a =
    if webhooks_enabled e.settings then record a { outbox = a.outbox ++ w ∷ [] } else a

module _ {e : Env} (o : Await → Reply) where
  pub Runs-pure {ℓ} : {A : Type ℓ} (a : App e) (x : A) → Runs o a (pure x) x a []
  unfolding pure
  Runs-pure a x = record { runs = λ k. refl }

  pub Runs-bind {ℓ κ} :
      {A : Type ℓ} {B : Type κ} (a b c : App e) (call : Async e A) (rest : A → Async e B) (x : A)
      (y : B) (cs ds : List Await)
      → Runs o a call x b cs
      → Runs o b (rest x) y c ds
      → Runs o a (call >>= rest) y c (cs ++ ds)
  unfolding ◌>>=◌
  Runs-bind a b c call rest x y cs ds first second = record {
    runs = λ k.
        first.runs (λ z. rest z k)
        ∙ ap (before cs) (second.runs k)
        ∙ ap (λ es. ((alone o c (k y)).0, es)) (sym (append_assoc cs ds (alone o c (k y)).1));
  }

  pub Runs-request : (a : App e) (c : Await) → Runs o a (request c) tt a (c ∷ [])
  unfolding request alone
  Runs-request a c = record { runs = λ k. refl }

  pub Runs-state_at :
      (a : App e) (r : ℕ) (s : CallState) → nth r a.heap ≡ some s → Runs o a (state_at r) s a []
  unfolding state_at alone some_or_fail
  Runs-state_at a r s found = record {
    runs = λ k.
        subst (λ z. alone o a (some_or_fail z k) ≡ before [] (alone o a (k s))) (sym found) refl;
  }

  pub Runs-writes : (a : App e) (f : App e → App e) → Runs o a (writes f) tt (f a) []
  unfolding writes alone
  Runs-writes a f = record { runs = λ k. refl }

  pub Runs-emit : (a : App e) (w : Webhook) → Runs o a (emit w) tt (announced w a) []
  unfolding emit
  Runs-emit a w = Runs-writes a (announced w)

  pub Runs-cancel : (a : App e) (r : ℕ) → Runs {0} o a (λ k. cancel r (k tt)) tt a []
  unfolding alone
  Runs-cancel a r = record { runs = λ k. refl }

  pub Runs-transact {ℓ} :
      {A : Type ℓ} (a b : App e) (f : App e → Result (A × App e)) (x : A)
      → succeeded (o transaction) ≡ true
      → f a ≡ ok (x, b)
      → Runs o a (transact f) x b (transaction ∷ [])
  unfolding transact try_transaction alone committed some_or_fail
  Runs-transact a b f x good done = record { runs = λ k. rw good (rw done refl) }

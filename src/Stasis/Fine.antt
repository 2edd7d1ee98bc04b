-- ===== src/Stasis/Fine.antt =====
-- app/ari/stasis.py: what the steps of a coroutine may do, seen from one row of the journal.
pub mod Writes
use number_masking_service.Prelude.{
  ℕ, zero, suc, ◌+◌, ◌≤◌, ◌≡◌, Option, none, some, List, [], ◌∷◌, Bool, true, false, ◌&&◌, ◌==◌,
  Text, text_eq, any, count, if◌then◌else◌, length,
}
use number_masking_service.Stasis.{
  Env, App, CallState, Await, Reply, Origination, originate, Webhook, call_started, call_answered,
  call_ended, Coroutine, stop, look, act, spawn, cancel, wait, Async,
}
use number_masking_service.Stasis.Teardown.{pending_cause_limit}
use number_masking_service.Stasis.Connect.{caller_identity}

abbrev pub is_call : ℕ → Option ℕ → Bool
is_call i none = false
is_call i (some j) = j == i

abbrev pub is_end : ℕ → Webhook → Bool
is_end i (call_started c s p ch) = false
is_end i (call_answered c s p) = false
is_end i (call_ended j s st d h p) = j == i

-- How often the end of a call was announced.
abbrev pub ends : ℕ → List Webhook → ℕ
ends i outbox = count (is_end i) outbox

-- How many states have this journal row, and how many of them are finishing.
abbrev pub copies : ℕ → List CallState → ℕ
copies i heap = count (λ s. is_call i s.call_id) heap

abbrev pub flags : ℕ → List CallState → ℕ
flags i heap = count (λ s. is_call i s.call_id && s.finishing) heap

-- What a call owes that begins to finish: one announcement of its end.
abbrev pub debt : ℕ → Option ℕ → ℕ
debt i call = if is_call i call then 1 else 0

-- A call came in on this channel, by this proxy number.
abbrev pub knows : List CallState → Text → Text → Bool
knows heap channel proxy =
    any heap (λ s. text_eq s.channel_id channel && text_eq s.proxy_e164 proxy)

-- The caller that a dialled leg is told is the proxy number of the call that dials.
abbrev pub dialled : Await → Option Origination
dialled (originate o) = some o
dialled _ = none

abbrev pub Named : {e : Env} → App e → Option Origination → Type 0
Named a none = Unit
Named a (some o) =
    (proxy : Text) × (knows a.heap o.originator proxy ≡ true)
    × (o.caller_id ≡ caller_identity proxy)

abbrev pub Proper : {e : Env} → App e → Await → Type 0
Proper a c = Named a (dialled c)

abbrev pub next_row : {e : Env} → App e → ℕ
next_row a = a.world.db.calls.next_id

module _ {e : Env} (i : ℕ) where
  -- One state at most has the row `i`, and none has it while the row is still to come.
  pub record Fresh (a : App e) : Type 0 where
    pub single : copies i a.heap ≤ 1
    pub unborn : next_row a ≤ i → copies i a.heap ≡ 0

  -- States, marks and announcements are never taken back.
  pub record Grows (a b : App e) : Type 0 where
    pub copies_grow : copies i a.heap ≤ copies i b.heap
    pub flags_grow : flags i a.heap ≤ flags i b.heap
    pub ends_grow : ends i a.outbox ≤ ends i b.outbox

  -- What a coroutine that owes the announcement of `t` ends does in one write, after which it owes
  -- `u`: the announcements made and owed do not outgrow the states that are finishing.
  pub record Moves (a : App e) (t : ℕ) (b : App e) (u : ℕ) : Type 0 where
    pub paid : ends i b.outbox + u + flags i a.heap ≤ ends i a.outbox + t + flags i b.heap
    pub fresh : Fresh a → Fresh b
    pub grows : Grows a b
    pub bounded :
        length a.pending_cause ≤ pending_cause_limit → length b.pending_cause ≤ pending_cause_limit
    pub known :
        (channel proxy : Text)
        → knows a.heap channel proxy ≡ true
        → knows b.heap channel proxy ≡ true

  -- All that a coroutine may do from here on is in order, whatever others do while it waits.
  abbrev pub Fine : ℕ → Coroutine e → App e → Type 0
  Fine t stop a = Unit
  Fine t (look k) a = Fine t (k a) a
  Fine t (act f p) a = (u : ℕ) × Moves a t (f a) u × Fine u p (f a)
  Fine t (spawn o p q) a = ((b : App e) → Fine 0 p b) × Fine t q a
  Fine t (cancel r p) a = Fine t p a
  Fine t (wait c k) a = Proper a c × ((reply : Reply) (b : App e) → Fine t (k reply) b)

-- A function that is in order, and takes a debt of `t` to one of `u`.
pub record Sound {ℓ} {e : Env} {A : Type ℓ} (i t : ℕ) (call : Async e A) (u : ℕ) : Type ℓ where
  pub fine :
      (k : A → Coroutine e)
      → ((x : A) (b : App e) → Fine i u (k x) b)
      → (a : App e) → Fine i t (call k) a

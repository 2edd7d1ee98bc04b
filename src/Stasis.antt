-- ===== src/Stasis.antt =====
-- app/ari/stasis.py: the state of the application, and the coroutines that work on it. A coroutine
-- runs undisturbed until it awaits something; what happens between two awaits is one step.
pub mod Teardown
pub mod Connect
pub mod Inbound
pub mod Handlers
pub mod System
pub mod Fine
pub mod Sound
pub mod Invariant
pub mod Safety
pub mod Budget
pub mod Alone
pub mod Phases
pub mod Outcome
use number_masking_service.Prelude.{
  ℕ, zero, suc, ◌+◌, Option, none, some, List, [], ◌∷◌, ◌++◌, Bool, true, false, Text, text_eq,
  if◌then◌else◌,
}
use number_masking_service.Errors.{Result, ok, err}
use number_masking_service.Unicode.{Unicode}
use number_masking_service.Settings.{Settings, webhooks_enabled}
use number_masking_service.Crypto.{Primitives}
use number_masking_service.Journal.{Direction, CallStatus}
use number_masking_service.Cache.{Redis}
use number_masking_service.Sessions.{World}

-- What the application is built on: its settings, the libraries, `uuid.uuid4`, `os.urandom` and the
-- text of a UUID.
pub record Env : Type 1 where
  pub settings : Settings
  pub unicode : Unicode
  pub primitives : Primitives
  pub redis : Redis
  pub uuid4 : ℕ → Text
  pub nonce : ℕ → Text
  pub show_uuid : ℕ → Text

pub record CallState : Type 0 where
  pub channel_id : Text
  pub caller_hash : Text
  pub proxy_e164 : Text
  pub trace_id : Option Text
  pub call_id : Option ℕ
  pub session_id : Option ℕ
  pub direction : Option Direction
  pub callee_e164 : Option Text
  pub bridge_id : Option Text
  pub outbound_channel_id : Option Text
  -- whether `collector` is there
  pub collecting : Bool
  pub answered : Bool
  pub finishing : Bool
  pub final_status : Option CallStatus

-- The arguments of `originate`.
pub record Origination : Type 0 where
  pub endpoint : Text
  pub app_args : Text
  pub caller_id : Text
  pub timeout : ℕ
  pub originator : Text
  pub channel_id : Text

-- What a coroutine awaits: a request to Asterisk, or something else.
pub data Await : Type 0 where
  answer ring ring_stop : Text → Await
  hangup : Text → Option ℕ → Await
  play : Text → Text → Await
  create_bridge add_to_bridge : Text → Text → Await
  destroy_bridge : Text → Await
  originate : Origination → Await
  set_variable : Text → Text → Text → Await
  subscribe_channel : Text → Text → Await
  -- the start of a task, a transaction, a pause in seconds, the end of a playback, the collector
  begin transaction : Await
  sleep : ℕ → Await
  playback_finished : Text → Await
  collect : ℕ → Await

-- How it comes back: normally, with a text, or by an exception.
pub data Reply : Type 0 where
  done : Reply
  answer_text : Text → Reply
  raised : Reply

-- The calls of `webhooks.emit`.
pub data Webhook : Type 0 where
  call_started : Option ℕ → Option ℕ → Text → Text → Webhook
  call_answered : Option ℕ → Option ℕ → Text → Webhook
  call_ended : ℕ → Option ℕ → CallStatus → Option ℕ → Option ℕ → Text → Webhook

-- The application with the database and the cache. A `CallState` is shared by the coroutines that
-- hold it: it lives at a place of `heap`, and `calls` is the dictionary of those places.
pub record App (e : Env) : Type 0 where
  pub world : World e.redis
  pub clock : ℕ
  pub drawn : ℕ
  pub heap : List CallState
  pub calls : List (Text × ℕ)
  pub outbound_to_inbound : List (Text × Text)
  pub pending_cause : List (Text × ℕ)
  pub outbox : List Webhook

-- A coroutine: it reads and writes the application, starts a task for the call at a place, cancels
-- the tasks of a call, or awaits. An exception that nothing catches stops it.
pub data Coroutine (e : Env) : Type 0 where
  stop : Coroutine e
  look : (App e → Coroutine e) → Coroutine e
  act : (App e → App e) → Coroutine e → Coroutine e
  spawn : Option ℕ → Coroutine e → Coroutine e → Coroutine e
  cancel : ℕ → Coroutine e → Coroutine e
  wait : Await → (Reply → Coroutine e) → Coroutine e

-- A function of the code, given what is done with the value that it returns.
abbrev pub Async {ℓ} : Env → Type ℓ → Type ℓ
Async e A = (A → Coroutine e) → Coroutine e

infixl 5 ◌>>=◌ ◌>>◌
unfoldable pub ◌>>=◌ {ℓ κ} :
    {e : Env} {A : Type ℓ} {B : Type κ} → Async e A → (A → Async e B) → Async e B
call >>= rest = λ k. call (λ a. rest a k)

abbrev pub ◌>>◌ {ℓ κ} : {e : Env} {A : Type ℓ} {B : Type κ} → Async e A → Async e B → Async e B
call >> rest = call >>= λ _. rest

unfoldable pub pure {ℓ} : {e : Env} {A : Type ℓ} → A → Async e A
pure a = λ k. k a

abbrev pub nth {ℓ} : {A : Type ℓ} → ℕ → List A → Option A
nth i [] = none
nth zero (x ∷ xs) = some x
nth (suc i) (x ∷ xs) = nth i xs

abbrev pub modify_at {ℓ} : {A : Type ℓ} → ℕ → (A → A) → List A → List A
modify_at i f [] = []
modify_at zero f (x ∷ xs) = f x ∷ xs
modify_at (suc i) f (x ∷ xs) = x ∷ modify_at i f xs

-- A dictionary is a list of its items, the first entered first.
abbrev pub dict_get {ℓ} : {A : Type ℓ} → Text → List (Text × A) → Option A
dict_get key [] = none
dict_get key ((k, a) ∷ rest) =
    let found = dict_get key rest in if text_eq k key then some a else found

abbrev pub dict_pop {ℓ} : {A : Type ℓ} → Text → List (Text × A) → List (Text × A)
dict_pop key [] = []
dict_pop key ((k, a) ∷ rest) =
    let left = dict_pop key rest in if text_eq k key then left else (k, a) ∷ left

-- `d[key] = a`, which keeps the place of a key that is there.
abbrev pub dict_set {ℓ} : {A : Type ℓ} → Text → A → List (Text × A) → List (Text × A)
dict_set key a [] = (key, a) ∷ []
dict_set key a ((k, b) ∷ rest) =
    let changed = (k, b) ∷ dict_set key a rest in if text_eq k key then (k, a) ∷ rest else changed

abbrev pub succeeded : Reply → Bool
succeeded done = true
succeeded (answer_text t) = true
succeeded raised = false

abbrev pub reply_text : Reply → Option Text
reply_text done = none
reply_text (answer_text t) = some t
reply_text raised = none

abbrev pub ok_or_none {ℓ} : {A : Type ℓ} → Result A → Option A
ok_or_none (ok a) = some a
ok_or_none (err x) = none

module _ {e : Env} where
  -- `with suppress(ARIError)` around one request.
  unfoldable pub request : Await → Async e (Unit {0})
  request c = λ k. wait c (λ r. k tt)

  -- A request in a `try` block: whether it went well.
  unfoldable pub try_request : Await → Async e Bool
  try_request c = λ k. wait c (λ r. k (succeeded r))

  -- A request that returns a text, or raises.
  unfoldable pub ask_text : Await → Async e (Option Text)
  ask_text c = λ k. wait c (λ r. k (reply_text r))

  -- Outside a coroutine's own steps, an exception that nothing catches.
  unfoldable pub fail {ℓ} : {A : Type ℓ} → Async e A
  fail = λ k. stop

  unfoldable pub reads {ℓ} : {A : Type ℓ} → (App e → A) → Async e A
  reads f = λ k. look (λ a. k (f a))

  unfoldable pub some_or_fail {ℓ} : {A : Type ℓ} → Option A → (A → Coroutine e) → Coroutine e
  some_or_fail none k = stop
  some_or_fail (some a) k = k a

  -- The `CallState` at a place.
  unfoldable pub state_at : ℕ → Async e CallState
  unfolding some_or_fail
  state_at r = λ k. look (λ a. some_or_fail (nth r a.heap) k)

  unfoldable pub writes : (App e → App e) → Async e (Unit {0})
  writes f = λ k. act f (k tt)

  unfoldable pub set_state : ℕ → (CallState → CallState) → Async e (Unit {0})
  unfolding writes
  set_state r f = writes (λ a. record a { heap = modify_at r f a.heap })

  unfoldable pub when : Bool → Async e (Unit {0}) → Async e (Unit {0})
  when b call = λ k. if b then call k else k tt

  unfoldable pub for_some {ℓ} :
      {A : Type ℓ} → Option A → (A → Async e (Unit {0})) → Async e (Unit {0})
  for_some none call = λ k. k tt
  for_some (some a) call = call a

  unfoldable pub emit : Webhook → Async e (Unit {0})
  unfolding writes
  emit w =
      writes
        λ a. if webhooks_enabled e.settings then record a { outbox = a.outbox ++ w ∷ [] } else a

  unfoldable pub committed {ℓ} :
      {A : Type ℓ} → Result (A × App e) → (Result A → Coroutine e) → Coroutine e
  committed (ok (x, a)) k = act (λ _. a) (k (ok x))
  committed (err x) k = k (err x)

  -- A transaction in a `try` block. It takes effect in the step that resumes the coroutine.
  unfoldable pub try_transaction {ℓ} :
      {A : Type ℓ} → (App e → Result (A × App e)) → Async e (Option A)
  unfolding committed
  try_transaction f = λ k.
      wait transaction
        λ r. if succeeded r then look (λ a. committed (f a) (λ x. k (ok_or_none x))) else k none

  -- A transaction: where it raises, so does the coroutine.
  unfoldable pub transact {ℓ} : {A : Type ℓ} → (App e → Result (A × App e)) → Async e A
  unfolding try_transaction some_or_fail
  transact f = λ k. try_transaction f (λ x. some_or_fail x k)

-- ===== src/Stasis/System.antt =====
-- app/ari/stasis.py: the application at run time. Tasks wait, one at a time is resumed, and every
-- request that is made to Asterisk is kept in a trace.
use number_masking_service.Prelude.{
  ℕ, Option, none, some, List, [], ◌∷◌, ◌++◌, Bool, false, ◌==◌, if◌then◌else◌, ◌≡◌, ◌≤◌,
}
use number_masking_service.Sessions.{World}
use number_masking_service.Stasis.{
  Env, App, Await, Reply, Coroutine, stop, look, act, spawn, cancel, wait, begin,
}
use number_masking_service.Stasis.Handlers.{Event, handle_event}

-- A task that waits, with the call whose task it is.
pub record Task (e : Env) : Type 0 where
  pub owner : Option ℕ
  pub awaited : Await
  pub resume : Reply → Coroutine e

pub record System (e : Env) : Type 0 where
  pub app : App e
  pub tasks : List (Task e)
  pub trace : List Await

abbrev pub owned_by : ℕ → Option ℕ → Bool
owned_by r none = false
owned_by r (some s) = s == r

module _ {e : Env} where
  -- `cancel_tasks`: a task that is cancelled stops where it waits.
  unfoldable pub cancel_tasks : ℕ → List (Task e) → List (Task e)
  cancel_tasks r [] = []
  cancel_tasks r (t ∷ ts) =
      let rest = cancel_tasks r ts in if owned_by r t.owner then rest else t ∷ rest

  -- A coroutine runs until it waits or stops.
  unfoldable pub settle : Coroutine e → Option ℕ → System e → System e
  unfolding cancel_tasks
  settle stop owner s = s
  settle (look k) owner s = settle (k s.app) owner s
  settle (act f p) owner s = settle p owner (record s { app = f s.app })
  settle (spawn o p q) owner s =
      settle q owner
        (record s { tasks = record { owner = o; awaited = begin; resume = λ _. p } ∷ s.tasks })
  settle (cancel r p) owner s = settle p owner (record s { tasks = cancel_tasks r s.tasks })
  settle (wait c k) owner s = record s {
    tasks = record { owner = owner; awaited = c; resume = k } ∷ s.tasks;
    trace = s.trace ++ c ∷ [];
  }

  -- The clock reads `now` from here on.
  unfoldable pub at_time : ℕ → System e → System e
  at_time now s = record s { app = record s.app { clock = now } }

  -- An event arrives, or a task is resumed with a reply, or a task is given up (it was cancelled from
  -- outside, or the application stops), or another process changes the database or the cache, where a
  -- sequence does not go back.
  pub data Step (s : System e) : System e → Type 0 where
    receive :
        (now : ℕ) (event : Event)
        → Step s (settle (handle_event event (λ _. stop)) none (at_time now s))
    resume_task :
        (now : ℕ) (before after : List (Task e)) (t : Task e) (reply : Reply)
        → s.tasks ≡ before ++ t ∷ after
        → Step s
            (settle (t.resume reply) t.owner (at_time now (record s { tasks = before ++ after })))
    give_up :
        (before after : List (Task e)) (t : Task e)
        → s.tasks ≡ before ++ t ∷ after
        → Step s (record s { tasks = before ++ after })
    elsewhere :
        (world : World e.redis)
        → s.app.world.db.calls.next_id ≤ world.db.calls.next_id
        → Step s (record s { app = record s.app { world = world } })

  -- An application that has just been started, on any database.
  abbrev pub started : World e.redis → ℕ → System e
  started world now = record {
    app = record {
      world = world;
      clock = now;
      drawn = 0;
      heap = [];
      calls = [];
      outbound_to_inbound = [];
      pending_cause = [];
      outbox = [];
    };
    tasks = [];
    trace = [];
  }

  pub data Reach : System e → Type 0 where
    start : (world : World e.redis) (now : ℕ) → Reach (started world now)
    next : {s t : System e} → Reach s → Step s t → Reach t

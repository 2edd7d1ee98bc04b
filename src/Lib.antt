-- ===== src/Lib.antt =====
-- A verification library for the number masking service: two parties who must not learn each other's
-- phone numbers call a proxy number, and the service finds out whom to connect.
--
-- How the parts work together. `app/services/sessions.py` creates a session for a pair: it takes a
-- proxy number from `app/services/allocation.py`, writes the session with its two party rows
-- (`app/db/models.py`), and drops the cached routes of the number (`app/db/cache.py`). A call on the
-- number goes through `app/services/routing.py`, which consults the cache, then the tables, and says
-- whom to connect, or to ask for a PIN, which `app/ari/dtmf.py` collects. Every call is journalled by
-- `app/services/calls.py`, and `app/services/webhooks.py` reports what happened. What happens to the
-- channels of a call is in the hands of `app/ari/stasis.py`, which reacts to the events of Asterisk.
--
-- The files, and what they model:
--
--   Prelude     names, Boolean tests, lists, texts and sorting that the other files share
--   Errors      app/core/errors.py: the exceptions, and the result of code that may raise
--   Unicode     the character tables that Python's str consults: a parameter
--   Settings    app/core/config.py: the settings that the services read
--   Phone       app/core/phone.py: normalize_e164, is_e164, mask_e164, scrub_text
--   Crypto      app/core/crypto.py: party_hash, encrypt_e164, decrypt_e164, generate_ext_code,
--               webhook_signature; the primitives are a parameter
--   Journal     app/services/calls.py: one function of the same name for each function, and `perform`
--               for a sequence of them; Journal.Paging has list_calls and find_by_channel
--   Db          app/db/models.py, app/db/triggers.py: the rows, the trigger, the unique indexes
--   Allocation  app/services/allocation.py: allocate_number with its queries, one definition for each
--               SQL text; the loop over the candidates is `share_first`
--   Cache       app/db/cache.py; the Redis server is a parameter
--   Lookup      app/services/routing.py: _load_candidates, _had_session, select_by_code
--   Routing     app/services/routing.py: resolve_call, _cache_single, _decision_from_cache
--   Sessions    app/services/sessions.py: create_session
--   Lifecycle   app/services/sessions.py: get, extend, close, expire and purge
--   Numbers     app/services/numbers.py: add_number, set_number_status, list_numbers, pool_stats
--   Webhooks    app/services/webhooks.py: _deliver and emit
--   Dtmf        app/ari/dtmf.py: DigitCollector.collect
--   Stasis      app/ari/stasis.py: the state of the application, and coroutines over it.
--               Stasis.Teardown has _finish, _reject, _play and _fail_channel, Stasis.Connect has
--               _connect and _ask_for_code, Stasis.Inbound the arrival of a caller, Stasis.Handlers the
--               handlers of events, Stasis.System the tasks that wait and the steps of the whole
--   Client      app/ari/client.py: `http_of` is the request for each thing that a coroutine awaits,
--               `reply_of` how the answer resumes it, `pauses` the waits of `events`
--   Api         app/api, app/main.py: Api.Access has require_api_key, Api.Serializers what is shown,
--               Api.Routes one function for each route, Api.Schemas the checks of the bodies,
--               Api.Serving `request_context` with the exception handlers, Api.Metrics the metrics
--   Logging     app/core/logging_config.py: _inject_context and _scrub_pii, and `process`, both
--   Secrets     app/core/config.py: encryption_key_bytes, validate_production_secrets, ari_ws_url;
--               scripts/gen_secrets.py: _generated_values
--   Background  app/background.py: a round of each loop, and the loops as lists of rounds
--   Examples    concrete tables, at which the theorems are tried
--
-- A file below one of these, such as Lifecycle.Ending, proves what its first line says about that part.
--
-- Conventions. A function that awaits and changes the database is a function from the tables to a
-- `Result` with the new tables; a transaction that raises is rolled back, so an error carries none.
-- The tables are those that the transaction itself sees, and others see them when its caller commits;
-- the lookup cache is changed at once, before that. A theorem about calls that follow says which tables
-- they find.
-- What a function reads from outside is an argument: the clock, `uuid4`, `os.urandom`, the draws of
-- `secrets.randbelow`, and which rows other transactions hold. Times are microseconds. A `str` is the
-- list of its code points. What the code logs, and the texts of its exceptions, are left out.
--
-- Bounds. The draws of `_fresh_code` are 20, as in the code, and so are the candidates of the extension
-- query. The fuel of `decimal` is n + 1 for the number n, more than its digits. The loop of `collect`
-- recurs on the arrivals, that of `_deliver` on the attempts left.
--
-- Call control. A handler or a task is a `Coroutine`: it runs undisturbed until it awaits something, and
-- then other tasks run. `Step` lets any event arrive, resumes any task with any reply, an error among
-- them, at any time, gives tasks up, and lets other processes change the database. Handlers may overlap
-- there, which the event pump does not do, so what holds of the model holds of fewer runs too. A
-- transaction takes effect in the step that resumes its task. A `CallState` that several coroutines share
-- lives at a place of `heap`. What a request to Asterisk does there is not modelled: its reply is any.
--
-- Not modelled: of `app/ari/stasis.py` the event pump, the table of playbacks (the end of a playback is one
-- await) and stopping; of `app/ari/client.py` the sockets; of `app/api` what the framework does: routing,
-- JSON and the texts of its errors; the processors and the configuration of structlog; start-up, the
-- connection pool, migrations, the demonstration client, and the configuration of Asterisk. A number row
-- that another transaction holds is skipped, as the queries ask.
mod Prelude
pub mod Errors
pub mod Unicode
pub mod Settings
pub mod Phone
pub mod Crypto
pub mod Journal
pub mod Logging
pub mod Db
pub mod Allocation
pub mod Cache
pub mod Lookup
pub mod Routing
pub mod Sessions
pub mod Lifecycle
pub mod Numbers
pub mod Webhooks
mod Examples
pub mod Dtmf
pub mod Stasis
pub mod Client
pub mod Api
pub mod Secrets
pub mod Background

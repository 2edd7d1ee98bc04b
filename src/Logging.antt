-- ===== src/Logging.antt =====
-- app/core/logging_config.py: what is added to an event of the log and what is masked in it. The
-- other processors, the renderer and the configuration of structlog are not modelled; the context
-- variables are arguments.
pub mod Hidden
use number_masking_service.Prelude.{
  ℕ, Option, none, some, List, [], ◌∷◌, ◌++◌, Bool, true, false, Text, text_eq, codes, is_empty,
  any, map, if◌then◌else◌,
}
use number_masking_service.Unicode.{Unicode}
use number_masking_service.Phone.{scrub_text}

-- A value of an event: a text, None, or an object of another type.
pub data Value : Type 0 where
  text : Text → Value
  null : Value
  object : ℕ → Value

abbrev pub EventDict : Type 0
EventDict = List (Text × Value)

-- `_SAFE_KEYS`.
abbrev pub safe_keys : List Text
safe_keys =
    codes "ts"
    ∷ codes "level"
    ∷ codes "event"
    ∷ codes "logger"
    ∷ codes "trace_id"
    ∷ codes "session_id"
    ∷ codes "call_id"
    ∷ codes "channel_id"
    ∷ codes "bridge_id"
    ∷ codes "other_channel_id"
    ∷ codes "caller_hash"
    ∷ codes "party_hash"
    ∷ codes "duration_sec"
    ∷ codes "timeout"
    ∷ codes "attempt"
    ∷ codes "status_code"
    ∷ []

unfoldable pub has_key : Text → EventDict → Bool
has_key key event = any event (λ (e : Text × Value). text_eq e.0 key)

abbrev pub or_null : Option Text → Value
or_null none = null
or_null (some t) = text t

-- `dict.setdefault`.
unfoldable pub setdefault : Text → Value → EventDict → EventDict
unfolding has_key
setdefault key value event = if has_key key event then event else event ++ (key, value) ∷ []

-- An empty identifier of a session counts as none.
with_session : Option Text → EventDict → EventDict
unfolding setdefault
with_session none event = event
with_session (some id) event =
    if is_empty id then event else setdefault (codes "session_id") (text id) event

-- `_inject_context`; the identifiers are those bound to the task.
unfoldable pub inject_context : Option Text → Option Text → EventDict → EventDict
unfolding setdefault with_session
inject_context trace_id session_id event =
    with_session session_id (setdefault (codes "trace_id") (or_null trace_id) event)

-- `key in _SAFE_KEYS`.
unfoldable pub is_safe : Text → Bool
is_safe key = any safe_keys (text_eq key)

scrub_value : Unicode → Value → Value
scrub_value u (text t) = text (scrub_text u t)
scrub_value u null = null
scrub_value u (object n) = object n

unfoldable pub scrub_field : Unicode → Text × Value → Text × Value
unfolding scrub_value
scrub_field u (key, value) = if is_safe key then (key, value) else (key, scrub_value u value)

-- `_scrub_pii`.
unfoldable pub scrub_pii : Unicode → EventDict → EventDict
unfolding scrub_field
scrub_pii u event = map (scrub_field u) event

-- The two processors of this file, in the order of `configure_logging`.
unfoldable pub process : Unicode → Option Text → Option Text → EventDict → EventDict
unfolding inject_context scrub_pii
process u trace_id session_id event = scrub_pii u (inject_context trace_id session_id event)

-- ===== src/Logging/Hidden.antt =====
-- app/core/logging_config.py: no phone number in what is logged.
use number_masking_service.Prelude.{
  ◌≡◌, ◌≤◌, Option, [], ◌∷◌, Text, In, here, there, false, inl, inr, Bool-cases, ap, sym, subst,
}
use number_masking_service.Unicode.{Unicode}
use number_masking_service.Phone.{scrub_text}
use number_masking_service.Phone.Runs.{longest}
use number_masking_service.Phone.Scrub.{scrub_text-longest}
use number_masking_service.Logging.{
  Value, text, null, object, EventDict, is_safe, scrub_field, scrub_value, scrub_pii,
  inject_context, process,
}

scrub_value-hides :
    (u : Unicode) (t : Text) (v : Value) → scrub_value u v ≡ text t → longest u t ≤ 10
unfolding scrub_value
scrub_value-hides u t (text s) e =
    let same : scrub_text u s ≡ t = cc in
    subst (λ x. longest u x ≤ 10) same (scrub_text-longest u s)
scrub_value-hides u t null e = absurd (cc e)
scrub_value-hides u t (object n) e = absurd (cc e)

scrub_field-hides :
    (u : Unicode) (k key t : Text) (v : Value)
    → scrub_field u (k, v) ≡ (key, text t)
    → is_safe key ≡ false
    → longest u t ≤ 10
unfolding scrub_field
scrub_field-hides u k key t v e h = elim (Bool-cases (is_safe k)) [
  | inl safe ↦
      let same : (k, v) ≡ (key, text t) = rw safe at e in
      absurd (cc (safe, ap is_safe (ap (λ (p : Text × Value). p.0) same), h))
  | inr other ↦
      let scrubbed : (k, scrub_value u v) ≡ (key, text t) = rw other at e in
      scrub_value-hides u t v (ap (λ (p : Text × Value). p.1) scrubbed)
]

scrub_pii-hides :
    (u : Unicode) (event : EventDict) (key t : Text)
    → In (key, text t) (scrub_pii u event)
    → is_safe key ≡ false
    → longest u t ≤ 10
unfolding scrub_pii
scrub_pii-hides u [] key t m h = elim m [ ]
scrub_pii-hides u ((k, v) ∷ event) key t (here e) h = scrub_field-hides u k key t v (sym e) h
scrub_pii-hides u ((k, v) ∷ event) key t (there m) h = scrub_pii-hides u event key t m h

-- A text that is logged under a key that is not among the safe ones has ten decimals in a row at
-- most, whatever the event held: no number of eleven digits shows in it.
pub process-hides :
    (u : Unicode) (trace_id session_id : Option Text) (event : EventDict) (key t : Text)
    → In (key, text t) (process u trace_id session_id event)
    → is_safe key ≡ false
    → longest u t ≤ 10
unfolding process
process-hides u trace_id session_id event key t m h =
    scrub_pii-hides u (inject_context trace_id session_id event) key t m h

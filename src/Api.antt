-- ===== src/Api.antt =====
-- app/api, app/main.py: what a client of the HTTP interface is let in for, and what it is shown.
pub mod Access
pub mod Serializers
pub mod Masking
pub mod Routes
pub mod Schemas
pub mod Accepted
pub mod Serving
pub mod Metrics
use number_masking_service.Prelude.{ℕ, Option, none, some, Text, codes}
use number_masking_service.Unicode.{Unicode}
use number_masking_service.Errors.{
  Error, validation_error, no_number_available_error, session_not_found_error,
  number_not_found_error, number_already_exists_error, session_not_active_error,
  allocation_conflict, unauthorized_error, rate_limited_error, payload_too_large_error,
  invalid_phone_number_error, value_error, invalid_tag, integrity_error,
}
use number_masking_service.Phone.{scrub_text}

-- The body of an error response, without its constant keys.
pub record ErrorResponse : Type 0 where
  pub status_code : ℕ
  pub code : Text
  pub message : Text
  pub trace_id : Option Text

-- `status_code` and `code` of a domain error; a `ValueError`, of which `InvalidPhoneNumberError` is one,
-- is answered like a validation error, and no handler catches the others.
unfoldable pub described : Error → Option (ℕ × Text)
described validation_error = some (422, codes "validation_failed")
described no_number_available_error = some (409, codes "no_number_available")
described session_not_found_error = some (404, codes "session_not_found")
described number_not_found_error = some (404, codes "number_not_found")
described number_already_exists_error = some (409, codes "number_already_exists")
described session_not_active_error = some (409, codes "session_not_active")
described allocation_conflict = some (409, codes "allocation_conflict")
described unauthorized_error = some (401, codes "unauthorized")
described rate_limited_error = some (429, codes "rate_limited")
described payload_too_large_error = some (413, codes "payload_too_large")
described invalid_phone_number_error = some (422, codes "validation_failed")
described value_error = some (422, codes "validation_failed")
described _ = none

-- `_error_response`, with the message and the trace of the request.
unfoldable pub error_response : Unicode → Option Text → Text → ℕ × Text → ErrorResponse
error_response u trace_id message (status, code) = record {
  status_code = status;
  code = code;
  message = scrub_text u message;
  trace_id = trace_id;
}

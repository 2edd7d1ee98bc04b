-- ===== src/Api/Serving.antt =====
-- app/main.py: how a request is answered: the middleware `request_context`, and the exception
-- handlers. What a route does is the argument `route`: what it comes to, and the state that it
-- leaves. `success` is the status that the route declares. Python's `int` of a text is a parameter.
pub mod Answers
use number_masking_service.Prelude.{
  ℕ, Option, none, some, List, Bool, true, false, ◌⊎◌, inl, inr, Text, codes, is_empty, ltb,
  if◌then◌else◌,
}
use number_masking_service.Errors.{Result, ok, err, Error, value_error, payload_too_large_error}
use number_masking_service.Unicode.{Unicode}
use number_masking_service.Settings.{ℤ, pos, negsuc}
use number_masking_service.Api.Schemas.{validation_response}
use number_masking_service.Api.{ErrorResponse, described, error_response}

-- The headers that the middleware reads.
pub record Request : Type 0 where
  pub x_trace_id : Option Text
  pub content_length : Option Text

-- The status, the `X-Trace-Id` header, and the body: an error's or the route's.
pub record Response (A : Type 0) : Type 0 where
  pub status_code : ℕ
  pub x_trace_id : Option Text
  pub body : ErrorResponse ⊎ A

-- `headers.get("X-Trace-Id") or uuid4().hex`.
unfoldable pub trace_of : Text → Option Text → Text
trace_of fresh none = fresh
trace_of fresh (some t) = if is_empty t then fresh else t

unfoldable pub exceeds : ℕ → ℤ → Bool
exceeds limit (pos n) = ltb limit n
exceeds limit (negsuc n) = false

-- `content_length and int(content_length) > api_max_body_bytes`; a text that is no number raises.
unfoldable pub too_large : (Text → Option ℤ) → ℕ → Option Text → Result Bool
unfolding exceeds
too_large int limit none = ok false
too_large int limit (some t) =
    if is_empty t
    then ok false
    else elim (int t) [ none ↦ err value_error | some n ↦ ok (exceeds limit n) ]

-- What a route comes to: its body, an exception, or a request that does not fit its schema
-- (`RequestValidationError`), with the places of the fields that failed.
pub data Outcome (A : Type 0) : Type 0 where
  returned : A → Outcome A
  raised : Error → Outcome A
  invalid : List Text → Outcome A

-- The handlers: a domain error, a `ValueError` and a `RequestValidationError` are answered; any other
-- exception is left to the framework, which answers with status 500.
unfoldable pub handled :
    {A : Type 0} → Unicode → ℕ → (Error → Text) → Text → Outcome A → Result (Response A)
unfolding described error_response validation_response
handled u success message trace_id (returned a) =
    ok (record { status_code = success; x_trace_id = some trace_id; body = inr a })
handled u success message trace_id (raised e) = elim (described e) [
  | none ↦ err e
  | some (status, code) ↦ ok (record {
    status_code = status;
    x_trace_id = some trace_id;
    body = inl (error_response u (some trace_id) (message e) (status, code));
  })
]
handled u success message trace_id (invalid fields) = ok (record {
  status_code = 422;
  x_trace_id = some trace_id;
  body = inl (validation_response (some trace_id) fields);
})

-- The answer to a body that is too large, which the middleware gives itself.
unfoldable pub refused : {A : Type 0} → Unicode → Text → Response A
unfolding error_response
refused u trace_id = record {
  status_code = 413;
  x_trace_id = none;
  body = inl (
      error_response u (some trace_id) (codes "request body is too large")
        (413, codes "payload_too_large"));
}

after_limit :
    {A S : Type 0}
    → Unicode
    → ℕ
    → (Error → Text)
    → Text
    → S
    → Outcome A × S
    → Bool
    → Result (Response A) × S
unfolding handled refused
after_limit u success message trace_id s ran true = (ok (refused u trace_id), s)
after_limit u success message trace_id s (outcome, s') false =
    (handled u success message trace_id outcome, s')

-- A request, from the middleware to the answer. A failed request leaves what the route left: its
-- transaction is rolled back, but a hit of the quota, or cache entries that were dropped, stay so.
unfoldable pub serve :
    {A S : Type 0}
    → Unicode
    → (int : Text → Option ℤ) (limit success : ℕ) (fresh : Text) (message : Error → Text) → Request
    → (route : Text → S → Outcome A × S) → S
    → Result (Response A) × S
unfolding trace_of too_large after_limit
serve u int limit success fresh message request route s =
    let trace_id = trace_of fresh request.x_trace_id in
    elim (too_large int limit request.content_length) [
      | err e ↦ (err e, s)
      | ok large ↦ after_limit u success message trace_id s (route trace_id s) large
    ]

-- ===== src/Api/Serving/Answers.antt =====
-- app/main.py: what every answer is.
use number_masking_service.Prelude.{
  ℕ, ◌≡◌, ◌≤◌, ◌<◌, ◌⊎◌, inl, inr, refl, Option, none, some, List, ◌++◌, Bool, true, false, Text,
  arith, Option-cases, codes,
}
use number_masking_service.Errors.{Result, ok, err, Error, validation_error, Result-cases}
use number_masking_service.Unicode.{Unicode}
use number_masking_service.Settings.{ℤ}
use number_masking_service.Phone.Runs.{longest}
use number_masking_service.Phone.Scrub.{scrub_text-longest}
use number_masking_service.Api.{ErrorResponse, described, error_response}
use number_masking_service.Api.Schemas.{joined, validation_response}
use number_masking_service.Api.Serving.{
  Request, Response, Outcome, returned, raised, invalid, trace_of, too_large, handled, refused,
  after_limit, serve,
}

module _ {A : Type 0} (u : Unicode) (success : ℕ) (trace_id : Text)
    (answer : Result (Response A)) where
  -- The answer to an error: the status is a client's error, the message shows at most ten decimals
  -- in a row, and the trace is the request's.
  pub record IsRefusal : Type 0 where
    pub resp : Response A
    pub sent : answer ≡ ok resp
    pub told : ErrorResponse
    pub body : resp.body ≡ inl told
    pub status : told.status_code ≡ resp.status_code
    pub low : 400 ≤ told.status_code
    pub high : told.status_code < 500
    pub hidden : longest u told.message ≤ 10
    pub traced : told.trace_id ≡ some trace_id

  -- The answer to a request that does not fit the schema: the places of the fields.
  pub record IsInvalid (fields : List Text) : Type 0 where
    pub resp : Response A
    pub sent : answer ≡ ok resp
    pub told : ErrorResponse
    pub body : resp.body ≡ inl told
    pub status : resp.status_code ≡ 422
    pub same : told.status_code ≡ 422
    pub names : told.message ≡ codes "invalid fields: " ++ joined fields
    pub traced : told.trace_id ≡ some trace_id

  -- The route's answer.
  pub record IsSuccess (a : A) : Type 0 where
    pub resp : Response A
    pub sent : answer ≡ ok resp
    pub body : resp.body ≡ inr a
    pub status : resp.status_code ≡ success
    pub traced : resp.x_trace_id ≡ some trace_id

  -- An exception that no handler catches, for which the framework answers.
  pub record IsUncaught (e : Error) : Type 0 where
    pub left : answer ≡ err e
    pub unknown : described e ≡ none

  -- What is answered to what the route came to.
  abbrev pub Fits : Outcome A → Type 0
  Fits (returned a) = IsSuccess a
  Fits (raised e) = IsRefusal ⊎ IsUncaught e
  Fits (invalid fields) = IsInvalid fields

described-client :
    (e : Error) (status : ℕ) (code : Text)
    → described e ≡ some (status, code)
    → (400 ≤ status) × (status < 500)
unfolding described
described-client validation_error status code h = ground arith
described-client e status code h = ground arith

handled-Fits :
    {A : Type 0} (u : Unicode) (success : ℕ) (message : Error → Text) (trace_id : Text)
    (outcome : Outcome A)
    → Fits u success trace_id (handled u success message trace_id outcome) outcome
unfolding handled error_response validation_response
handled-Fits u success message trace_id (returned a) = record {
  resp = _;
  sent = refl;
  body = refl;
  status = refl;
  traced = refl;
}
handled-Fits u success message trace_id (raised e) = elim (Option-cases (described e)) [
  | inl other ↦ rw (other, handled) (inr (record { left = refl; unknown = other }))
  | inr ((status, code), known) ↦
      let (low, high) = described-client e status code known in
      rw (known, handled)
        (inl (record {
          resp = _;
          sent = refl;
          told = error_response u (some trace_id) (message e) (status, code);
          body = refl;
          status = refl;
          low = low;
          high = high;
          hidden = scrub_text-longest u (message e);
          traced = refl;
        }))
]
handled-Fits u success message trace_id (invalid fields) = record {
  resp = _;
  sent = refl;
  told = validation_response (some trace_id) fields;
  body = refl;
  status = refl;
  same = refl;
  names = refl;
  traced = refl;
}

refused-IsRefusal :
    {A : Type 0} (u : Unicode) (success : ℕ) (trace_id : Text)
    → IsRefusal {A = A} u success trace_id (ok (refused u trace_id))
unfolding refused error_response
refused-IsRefusal u success trace_id = record {
  resp = _;
  sent = refl;
  told = _;
  body = refl;
  status = refl;
  low = omega arith;
  high = omega arith;
  hidden = scrub_text-longest u (codes "request body is too large");
  traced = refl;
}

-- The route ran, and what it came to is answered; the state is the one it left.
pub record IsRun {A S : Type 0} (u : Unicode) (success : ℕ) (trace_id : Text) (ran : Outcome A × S)
    (p : Result (Response A) × S) : Type 0 where
  pub state : p.1 ≡ ran.1
  pub answered : Fits u success trace_id p.0 ran.0

-- The middleware stopped the request, and nothing was changed: the body is too large, or its length is
-- no number.
pub record IsStopped {A S : Type 0} (u : Unicode) (success : ℕ) (trace_id : Text) (s : S)
    (large : Result Bool) (p : Result (Response A) × S) : Type 0 where
  pub state : p.1 ≡ s
  pub why :
      (IsRefusal u success trace_id p.0 × (large ≡ ok true))
      ⊎ ((e : Error) × (p.0 ≡ err e) × (large ≡ err e))

-- A request is stopped by the middleware, and then nothing is changed; or its route runs, and the state
-- is the one that the route leaves. What the route returned is answered as it is. A request that does
-- not fit the schema is answered with status 422 and the places of the fields, which are not scrubbed.
-- Any other exception is answered with a status from 400 to 499 and a message that has ten decimals
-- in a row at most, or it is one that no handler catches. Every error's answer has the trace of the
-- request.
pub serve-IsAnswer :
    {A S : Type 0} (u : Unicode) (int : Text → Option ℤ) (limit success : ℕ) (fresh : Text)
    (message : Error → Text) (request : Request) (route : Text → S → Outcome A × S) (s : S)
    → IsStopped u success
        (trace_of fresh request.x_trace_id)
        s
        (too_large int limit request.content_length)
        (serve u int limit success fresh message request route s)
      ⊎ IsRun u success
          (trace_of fresh request.x_trace_id)
          (route (trace_of fresh request.x_trace_id) s)
          (serve u int limit success fresh message request route s)
unfolding serve after_limit
serve-IsAnswer u int limit success fresh message request route s =
    let trace_id = trace_of fresh request.x_trace_id in
    elim (Result-cases (too_large int limit request.content_length)) [
      | inl (e, bad) ↦ rw (bad, serve) (inl (record { state = refl; why = inr (e, refl, refl) }))
      | inr (true, over) ↦
          rw (over, serve)
            (inl (record { state = refl; why = inl (refused-IsRefusal u success trace_id, refl) }))
      | inr (false, fine) ↦
          rw (fine, serve)
            (inr (record {
              state = refl;
              answered = handled-Fits u success message trace_id (route trace_id s).0;
            }))
    ]

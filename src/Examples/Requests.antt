-- ===== src/Examples/Requests.antt =====
-- Trials of what a request is checked for, and of how it is answered.
use number_masking_service.Prelude.{
  ℕ, suc, ◌≡◌, ◌⊎◌, refl, some, [], ◌∷◌, inl, inr, codes, true, text_eq, arith, Text,
}
use number_masking_service.Errors.{
  Result, ok, Error, err, no_number_available_error, allocation_conflict,
}
use number_masking_service.Unicode.{ascii}
use number_masking_service.Settings.{Settings, pos}
use number_masking_service.Phone.{normalize_e164, scrub_text}
use number_masking_service.Phone.Canonical.{Apart}
use number_masking_service.Db.{Db, Session, closed, find_session}
use number_masking_service.Lifecycle.{close_in_db}
use number_masking_service.Allocation.{
  allocate_number, exclusive_number, allocate_with_extension_code, extension_candidates,
}
use number_masking_service.Prelude.Sorts.{sort}
use number_masking_service.Sessions.{
  SessionCreate, create_in_db, hashes, check_ttl, ttl_or_default, check_max_calls,
}
use number_masking_service.Api.Schemas.{parse_session_create}
use number_masking_service.Api.Accepted.{IsWide, accepted_refusal}
use number_masking_service.Api.Serving.{
  Request, Response, Outcome, returned, raised, serve, trace_of, too_large,
}
use number_masking_service.Api.Serving.Answers.{IsStopped, IsRun, serve-IsAnswer}
use number_masking_service.Examples.Closing.{open_db}
use number_masking_service.Examples.{
  toy, plain_settings, empty_db, surroundings, request, alice, bob,
}

abbrev body : SessionCreate
body = record request { party_a = codes "8 701 123 45 67" }

parsed : parse_session_create ascii body ≡ inr request
unfolding parse_session_create normalize_e164
parsed = refl

-- The other number has nine letters.
misspelt :
    parse_session_create ascii
      (record request { party_b = codes "call me x"; max_calls = some (pos 0) })
    ≡ inl (codes "body.party_b" ∷ codes "body.max_calls" ∷ [])
unfolding parse_session_create normalize_e164
misspelt = refl

abbrev wide_settings : Settings
wide_settings = record plain_settings { max_ttl_seconds = pos 2_592_000 }

wide_settings-IsWide : IsWide wide_settings
wide_settings-IsWide = record {
  limit = 2_592_000;
  at_limit = refl;
  wide = omega arith;
  default = 3600;
  at_default = refl;
  positive = omega arith;
  short = omega arith;
}

ascii-Apart : Apart ascii
ascii-Apart c h = ground arith

-- A pool without a number.
abbrev no_pool : Db
no_pool = record empty_db { numbers = [] }

refused :
    create_in_db toy wide_settings surroundings request ascii no_pool
    ≡ err no_number_available_error
unfolding create_in_db normalize_e164 allocate_number text_eq check_ttl ttl_or_default
    check_max_calls exclusive_number sort allocate_with_extension_code extension_candidates
refused = refl

accepted_refusal_example :
    (no_number_available_error ≡ allocation_conflict)
    ⊎ (allocate_number toy wide_settings
          (hashes toy wide_settings surroundings request alice bob)
          surroundings.locked
          100
          true
          no_pool
          0
        ≡ err no_number_available_error)
unfolding text_eq
accepted_refusal_example =
    accepted_refusal toy wide_settings surroundings ascii body request no_pool
      no_number_available_error ascii-Apart wide_settings-IsWide parsed refl refused

-- What is raised for a session that is not there, with a number in the message.
abbrev telling : Error → Text
telling e = codes "no session of +77011234567"

-- The close of a session, behind a quota that counts the request.
abbrev closing : Db → ℕ → Result (Session × Db) → Outcome Session × (Db × ℕ)
closing db hits (ok (s, db')) = (returned s, (db', suc hits))
closing db hits (err e) = (raised e, (db, suc hits))

abbrev closing_route : Text → Db × ℕ → Outcome Session × (Db × ℕ)
closing_route trace_id (db, hits) = closing db hits (close_in_db 300 9 closed db)

abbrev plain_request : Request
plain_request = record { x_trace_id = some (codes "t1"); content_length = some (codes "20") }

abbrev not_found : Response Session
not_found = record {
  status_code = 404;
  x_trace_id = some (codes "t1");
  body = inl (record {
    status_code = 404;
    code = codes "session_not_found";
    message = codes "no session of +7701***4567";
    trace_id = some (codes "t1");
  });
}

-- The hit stays.
answered :
    serve ascii
      (λ t. some (pos 20))
      8192
      200
      (codes "t0")
      telling
      plain_request
      closing_route
      (open_db, 3)
    ≡ (ok not_found, (open_db, 4))
unfolding serve close_in_db find_session scrub_text
answered = refl

abbrev answer : Result (Response Session) × (Db × ℕ)
answer =
    serve ascii (λ t. some (pos 20)) 8192 200 (codes "t0") telling plain_request closing_route
      (open_db, 3)

serve-IsAnswer_example :
    IsStopped {S = Db × ℕ} ascii 200
      (codes "t1")
      (open_db, 3)
      (too_large (λ t. some (pos 20)) 8192 (some (codes "20")))
      answer
    ⊎ IsRun {S = Db × ℕ} ascii 200 (codes "t1") (closing_route (codes "t1") (open_db, 3)) answer
unfolding trace_of
serve-IsAnswer_example =
    serve-IsAnswer {S = Db × ℕ} ascii (λ t. some (pos 20)) 8192 200 (codes "t0") telling
      plain_request closing_route (open_db, 3)

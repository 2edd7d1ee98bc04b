-- ===== src/Api/Schemas.antt =====
-- app/api/schemas.py: what pydantic checks of a request's body, and app/main.py: how the answer names
-- what failed. The JSON types, unknown keys and pydantic's own texts are not modelled.
use number_masking_service.Prelude.{
  ℕ, String, Option, none, some, List, [], ◌∷◌, ◌++◌, Bool, true, false, ◌&&◌, ◌⊎◌, inl, inr, Text,
  codes, length, leb,
}
use number_masking_service.Errors.{Result, ok, err}
use number_masking_service.Unicode.{Unicode}
use number_masking_service.Settings.{ℤ, pos, negsuc}
use number_masking_service.Phone.{normalize_e164}
use number_masking_service.Db.{NumberStatus}
use number_masking_service.Sessions.{SessionCreate}
use number_masking_service.Api.{ErrorResponse}

abbrev pub max_ttl_seconds : ℕ
max_ttl_seconds = 2_592_000

abbrev pub max_calls_limit : ℕ
max_calls_limit = 10_000

abbrev pub max_e164_length : ℕ
max_e164_length = 20

abbrev pub max_external_id_length : ℕ
max_external_id_length = 128

abbrev pub max_provider_length : ℕ
max_provider_length = 64

-- A field `ge=1, le=high` that may be null.
unfoldable pub in_range : ℕ → Option ℤ → Bool
in_range high none = true
in_range high (some (pos n)) = leb 1 n && leb n high
in_range high (some (negsuc n)) = false

unfoldable pub fits : ℕ → Option Text → Bool
fits most none = true
fits most (some t) = leb (length t) most

unfoldable pub is_ok : {A : Type 0} → Result A → Bool
is_ok (ok a) = true
is_ok (err e) = false

unfoldable pub or_raw : Text → Result Text → Text
or_raw raw (ok t) = t
or_raw raw (err e) = raw

-- A field of type `E164`: its length, then `_validate_e164`.
unfoldable pub is_number : Unicode → Text → Bool
unfolding is_ok
is_number u value = leb (length value) max_e164_length && is_ok (normalize_e164 u none value)

-- What `_validate_e164` makes of a field that passes.
unfoldable pub normal : Unicode → Text → Text
unfolding or_raw
normal u value = or_raw value (normalize_e164 u none value)

-- The entry of a field in the list of what failed: its `loc`, with dots.
unfoldable pub check_field : String → Bool → List Text
check_field name true = []
check_field name false = (codes "body." ++ codes name) ∷ []

-- A body is turned into a request, or into the list of its invalid fields.
abbrev pub validated : {A : Type 0} → List Text → A → List Text ⊎ A
validated [] a = inr a
validated (field ∷ fields) a = inl (field ∷ fields)

-- `SessionCreate`: the fields as they were sent.
unfoldable pub session_create_fields : Unicode → SessionCreate → List Text
unfolding is_number in_range fits check_field
session_create_fields u body =
    check_field "party_a" (is_number u body.party_a)
    ++ (check_field "party_b" (is_number u body.party_b)
        ++ (check_field "ttl_seconds" (in_range max_ttl_seconds body.ttl_seconds)
            ++ (check_field "external_id" (fits max_external_id_length body.external_id)
                ++ check_field "max_calls" (in_range max_calls_limit body.max_calls))))

unfoldable pub parse_session_create : Unicode → SessionCreate → List Text ⊎ SessionCreate
unfolding session_create_fields normal
parse_session_create u body =
    validated (session_create_fields u body)
      (record body { party_a = normal u body.party_a; party_b = normal u body.party_b })

pub record SessionUpdate : Type 0 where
  pub ttl_seconds : Option ℤ
  pub expires_at : Option ℕ

unfoldable pub parse_session_update : SessionUpdate → List Text ⊎ SessionUpdate
unfolding in_range check_field
parse_session_update body =
    validated (check_field "ttl_seconds" (in_range max_ttl_seconds body.ttl_seconds)) body

pub record NumberCreate : Type 0 where
  pub e164 : Text
  pub provider : Option Text
  pub status : NumberStatus

unfoldable pub parse_number_create : Unicode → NumberCreate → List Text ⊎ NumberCreate
unfolding is_number fits check_field normal
parse_number_create u body =
    validated
      (check_field "e164" (is_number u body.e164)
        ++ check_field "provider" (fits max_provider_length body.provider))
      (record body { e164 = normal u body.e164 })

-- `", ".join(fields)`.
unfoldable pub joined : List Text → Text
joined [] = []
joined (field ∷ []) = field
joined (field ∷ other ∷ more) = field ++ (codes ", " ++ joined (other ∷ more))

-- `validation_handler`.
unfoldable pub validation_response : Option Text → List Text → ErrorResponse
unfolding joined
validation_response trace_id fields = record {
  status_code = 422;
  code = codes "validation_failed";
  message = codes "invalid fields: " ++ joined fields;
  trace_id = trace_id;
}

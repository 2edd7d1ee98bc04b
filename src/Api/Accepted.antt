-- ===== src/Api/Accepted.antt =====
-- app/api/schemas.py with app/services/sessions.py: what the service can rely on in a request that
-- the schema lets through.
use number_masking_service.Prelude.{
  ℕ, String, suc, zero, ◌≡◌, ◌≤◌, ◌⊎◌, inl, inr, refl, subst, Option, none, some, List, [], ◌∷◌,
  ◌++◌, Bool, true, false, Text, text_eq, arith,
}
use number_masking_service.Errors.{ok, err, Error, allocation_conflict, Result-cases}
use number_masking_service.Unicode.{Unicode}
use number_masking_service.Settings.{Settings, ℤ, pos, negsuc}
use number_masking_service.Crypto.{Primitives}
use number_masking_service.Phone.{normalize_e164}
use number_masking_service.Phone.Normal.{normalize_e164-IsE164}
use number_masking_service.Phone.Canonical.{Apart, normalize_e164-canonical}
use number_masking_service.Db.{Db}
use number_masking_service.Allocation.{allocate_number}
use number_masking_service.Sessions.{
  check_different, SessionCreate, Surroundings, create_in_db, hashes, check_ttl, ttl_or_default,
  check_max_calls,
}
use number_masking_service.Api.Schemas.{
  max_ttl_seconds, max_calls_limit, max_external_id_length, in_range, is_number, normal,
  check_field, session_create_fields, parse_session_create, validated, or_raw, fits,
}

-- A number of a field, if it is given, from 1 to a limit.
abbrev pub Within : ℕ → Option ℤ → Type 0
Within high none = Unit
Within high (some z) = (n : ℕ) × (z ≡ pos n) × (1 ≤ n) × (n ≤ high)

-- What holds of a request that was made of a body.
pub record IsAccepted (u : Unicode) (body req : SessionCreate) : Type 0 where
  pub from_a : normalize_e164 u none body.party_a ≡ ok req.party_a
  pub from_b : normalize_e164 u none body.party_b ≡ ok req.party_b
  pub ttl : Within max_ttl_seconds req.ttl_seconds
  pub calls : Within max_calls_limit req.max_calls

check_field-passed : (name : String) (b : Bool) → check_field name b ≡ [] → b ≡ true
unfolding check_field
check_field-passed name true h = refl
check_field-passed name false h = absurd (cc h)

append-empty : {A : Type 0} (xs ys : List A) → xs ++ ys ≡ [] → (xs ≡ []) × (ys ≡ [])
append-empty [] ys h = (refl, h)
append-empty (x ∷ xs) ys h = absurd (cc h)

in_range-Within : (high : ℕ) (o : Option ℤ) → in_range high o ≡ true → Within high o
unfolding in_range
in_range-Within high none h = tt
in_range-Within high (some (pos n)) h = (n, refl, ground arith, ground arith)
in_range-Within high (some (negsuc n)) h = absurd (cc h)

is_number-normal :
    (u : Unicode) (t : Text) → is_number u t ≡ true → normalize_e164 u none t ≡ ok (normal u t)
unfolding is_number normal
is_number-normal u t h = elim (Result-cases (normalize_e164 u none t)) [
  | inl (e, bad) ↦ absurd (ground (arith, bad))
  | inr (out, good) ↦ rw (good, or_raw)
]

validated-inr :
    {A : Type 0} (fields : List Text) (a b : A)
    → validated fields a ≡ inr b
    → (fields ≡ []) × (a ≡ b)
validated-inr [] a b h = (refl, cc h)
validated-inr (f ∷ fields) a b h = absurd (cc h)

parse_session_create-IsAccepted :
    (u : Unicode) (body req : SessionCreate)
    → parse_session_create u body ≡ inr req
    → IsAccepted u body req
unfolding parse_session_create session_create_fields
parse_session_create-IsAccepted u body req h =
    let (passed, same) = validated-inr (session_create_fields u body) _ req h in
    let (a, rest) = append-empty (check_field "party_a" (is_number u body.party_a)) _ passed in
    let (b, rest') = append-empty (check_field "party_b" (is_number u body.party_b)) _ rest in
    let (t, rest'') =
      append-empty (check_field "ttl_seconds" (in_range max_ttl_seconds body.ttl_seconds)) _
        rest' in
    let (x, m) =
      append-empty (check_field "external_id" (fits max_external_id_length body.external_id)) _
        rest'' in
    subst (IsAccepted u body) same (record {
      from_a = is_number-normal u body.party_a (check_field-passed "party_a" _ a);
      from_b = is_number-normal u body.party_b (check_field-passed "party_b" _ b);
      ttl = in_range-Within max_ttl_seconds body.ttl_seconds (check_field-passed "ttl_seconds" _ t);
      calls = in_range-Within max_calls_limit body.max_calls (check_field-passed "max_calls" _ m);
    })

-- The longest lifetime that the service accepts is at least the schema's, and the default is one.
pub record IsWide (settings : Settings) : Type 0 where
  pub limit : ℕ
  pub at_limit : settings.max_ttl_seconds ≡ pos limit
  pub wide : max_ttl_seconds ≤ limit
  pub default : ℕ
  pub at_default : settings.default_ttl_seconds ≡ pos default
  pub positive : 1 ≤ default
  pub short : default ≤ limit

check_ttl-pos : (limit n : ℕ) → 1 ≤ n → n ≤ limit → check_ttl (pos limit) (pos n) ≡ ok n
unfolding check_ttl
check_ttl-pos limit zero h k = absurd (omega arith)
check_ttl-pos limit (suc n) h k = ground arith

check_ttl-Within :
    (settings : Settings) (o : Option ℤ)
    → IsWide settings
    → Within max_ttl_seconds o
    → (n : ℕ) × (check_ttl settings.max_ttl_seconds (ttl_or_default settings o) ≡ ok n)
unfolding check_ttl ttl_or_default
check_ttl-Within settings none wide h = (
  wide.default,
  rw (wide.at_limit, wide.at_default)
      (check_ttl-pos wide.limit wide.default wide.positive wide.short),
)
check_ttl-Within settings (some z) wide (zero, e, low, high) = absurd (omega arith)
check_ttl-Within settings (some z) wide (suc n, e, low, high) =
    (suc n, rw (e, wide.at_limit) (check_ttl-pos wide.limit (suc n) low (omega (arith, wide.wide))))

check_max_calls-Within :
    (o : Option ℤ) → Within max_calls_limit o → (n : Option ℕ) × (check_max_calls o ≡ ok n)
unfolding check_max_calls
check_max_calls-Within none h = (none, refl)
check_max_calls-Within (some z) (zero, e, low, high) = absurd (omega arith)
check_max_calls-Within (some z) (suc n, e, low, high) = (some (suc n), rw e)

-- A request that the schema accepted, for two different parties, is refused by the service only
-- where no number can be allocated to them, or where the tables changed under it: never for its
-- numbers, its lifetime or its cap on calls. The settings allow the lifetimes that the schema
-- allows, their default is one they allow, and no decimal is white space.
pub accepted_refusal :
    (c : Primitives) (settings : Settings) (env : Surroundings) (u : Unicode)
    (body req : SessionCreate) (db : Db) (e : Error)
    → Apart u
    → IsWide settings
    → parse_session_create u body ≡ inr req
    → text_eq req.party_a req.party_b ≡ false
    → create_in_db c settings env req u db ≡ err e
    → (e ≡ allocation_conflict)
      ⊎ (allocate_number c settings
            (hashes c settings env req req.party_a req.party_b)
            env.locked
            env.sql_now
            req.allow_extension_code
            db
            env.draw
          ≡ err e)
unfolding create_in_db
accepted_refusal c settings env u body req db e apart wide parsed different failed =
    let accepted = parse_session_create-IsAccepted u body req parsed in
    let a =
      normalize_e164-canonical u req.party_a apart
        (normalize_e164-IsE164 u body.party_a req.party_a accepted.from_a) in
    let b =
      normalize_e164-canonical u req.party_b apart
        (normalize_e164-IsE164 u body.party_b req.party_b accepted.from_b) in
    let (ttl, t) = check_ttl-Within settings req.ttl_seconds wide accepted.ttl in
    let (calls, m) = check_max_calls-Within req.max_calls accepted.calls in
    elim (Result-cases (
      allocate_number c settings (hashes c settings env req req.party_a req.party_b) env.locked
        env.sql_now req.allow_extension_code db env.draw)) [
          | inl (e', refused) ↦ inr (
              let f : err e' ≡ err e =
                rw (a, b, different, t, m, refused, check_different) at failed in
              cc)
          | inr (got, allocated) ↦ inl (ground (arith, a, b, different, t, m, allocated))
        ]

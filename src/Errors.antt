-- ===== src/Errors.antt =====
-- app/core/errors.py and the other exceptions that the services raise, with the result of code that
-- may raise. A transaction whose body raises is rolled back (app/db/engine.py, app/api/deps.py),
-- so a failed operation carries no new state.
use number_masking_service.Prelude.{◌≡◌, ◌⊎◌, inl, inr, refl}

-- The subclasses of `DomainError`, `InvalidPhoneNumberError` of app/core/phone.py, and the other
-- exceptions that can leave a service: `ValueError`, `TypeError`, `InvalidTag`, `IntegrityError`.
pub data Error : Type 0 where
  validation_error no_number_available_error session_not_found_error : Error
  number_not_found_error number_already_exists_error session_not_active_error : Error
  allocation_conflict unauthorized_error rate_limited_error payload_too_large_error : Error
  invalid_phone_number_error value_error type_error invalid_tag integrity_error : Error

pub data Result {ℓ} (A : Type ℓ) : Type ℓ where
  err : Error → Result A
  ok : A → Result A

pub Result-cases {ℓ} :
    {A : Type ℓ} (x : Result A) → ((e : Error) × (x ≡ err e)) ⊎ ((a : A) × (x ≡ ok a))
Result-cases (err e) = inl (e, refl)
Result-cases (ok a) = inr (a, refl)

pub ok-injective {ℓ} : {A : Type ℓ} {a b : A} → ok a ≡ ok b → a ≡ b
ok-injective h = cc

-- What follows a call that may raise runs only if it did not.
infixl 5 ◌>>=◌
abbrev pub ◌>>=◌ {κ ℓ} :
    {B : Type κ} {A : Type ℓ} → (call : Result A) → (rest : A → Result B) → Result B
err raised >>= rest = err raised
ok value >>= rest = rest value

infixl 5 ◌>>◌
abbrev pub ◌>>◌ {κ ℓ} : {B : Type κ} {A : Type ℓ} → Result A → Result B → Result B
call >> rest = call >>= λ value. rest

-- A block that returned has got past each of its calls.
pub >>=-eq-ok {κ ℓ} :
    {B : Type κ} {A : Type ℓ} (call : Result A) (rest : A → Result B) {returned : B}
    → (call >>= rest) ≡ ok returned
    → (value : A) × (call ≡ ok value) × (rest value ≡ ok returned)
>>=-eq-ok (err raised) rest past = cc
>>=-eq-ok (ok value) rest past = (value, refl, past)

-- ===== src/Examples/Keys.antt =====
-- A trial of the generated secrets, with a code for bytes in two letters.
use number_masking_service.Prelude.{
  ℕ, zero, suc, length, ◌+◌, ◌≡◌, refl, Option, none, some, [], ◌∷◌, ◌++◌, Text, codes, All,
  All-append, true, false, is_empty, ◌==◌, if◌then◌else◌, arith, ap, subst,
}
use number_masking_service.Errors.{ok}
use number_masking_service.Unicode.{ascii}
use number_masking_service.Phone.{starts_with}
use number_masking_service.Secrets.{
  Codec, Sources, change_me, contains, configured, generated_values, encryption_key_bytes,
  validate_production_secrets,
}
use number_masking_service.Secrets.Generated.{
  is_base64, is_urlsafe, IsBase64, IsRandom, generated-accepted,
}

-- A byte n is n letters A and a letter B.
letters : ℕ → Text
letters zero = codes "B"
letters (suc n) = 65 ∷ letters n

spell : Text → Text
unfolding letters
spell [] = []
spell (n ∷ key) = letters n ++ spell key

prefixed : ℕ → Option Text → Option Text
prefixed n none = none
prefixed n (some key) = some (n ∷ key)

read_on : ℕ → Text → Option Text
unfolding prefixed
read_on n [] = if n == 0 then some [] else none
read_on n (c ∷ t) = elim (c == 65) [ true ↦ read_on (n + 1) t | false ↦ prefixed n (read_on 0 t) ]

read_on-letters : (n m : ℕ) (t : Text) → read_on n (letters m ++ t) ≡ prefixed (n + m) (read_on 0 t)
unfolding read_on letters
read_on-letters n zero t = let e : n ≡ n + 0 = omega arith in ap (λ k. prefixed k (read_on 0 t)) e
read_on-letters n (suc m) t =
    let e : n + 1 + m ≡ n + suc m = omega arith in
    subst (λ k. read_on (n + 1) (letters m ++ t) ≡ prefixed k (read_on 0 t)) e
      (read_on-letters (n + 1) m t)

read_on-spell : (key : Text) → read_on 0 (spell key) ≡ some key
unfolding read_on spell
read_on-spell [] = refl
read_on-spell (n ∷ key) =
    rw (read_on-letters 0 n (spell key), read_on-spell key) (ap (λ m. some (m ∷ key)) (omega arith))

letters-base64 : (n : ℕ) → All (λ c. is_base64 c ≡ true) (letters n)
unfolding letters
letters-base64 zero = (refl, tt)
letters-base64 (suc n) = (refl, letters-base64 n)

spell-base64 : (key : Text) → All (λ c. is_base64 c ≡ true) (spell key)
unfolding spell
spell-base64 [] = tt
spell-base64 (n ∷ key) =
    All-append (λ c. is_base64 c ≡ true) (letters n) (spell key) (letters-base64 n)
      (spell-base64 key)

spell-full : (key : Text) → is_empty key ≡ false → is_empty (spell key) ≡ false
unfolding spell letters
spell-full [] h = absurd (cc h)
spell-full (zero ∷ key) h = refl
spell-full (suc n ∷ key) h = refl

abbrev spelling : Codec
spelling = record { b64decode = read_on 0; b64encode = spell; sha256 = λ t. t }

spelling-IsBase64 : IsBase64 spelling
spelling-IsBase64 = record {
  decode-encode = read_on-spell;
  alphabet = spell-base64;
  full = spell-full;
}

-- A text of one character.
repeated : ℕ → ℕ → Text
repeated c zero = []
repeated c (suc n) = c ∷ repeated c n

repeated-urlsafe : (n : ℕ) → All (λ c. is_urlsafe c ≡ true) (repeated 97 n)
unfolding repeated
repeated-urlsafe zero = tt
repeated-urlsafe (suc n) = (refl, repeated-urlsafe n)

length-repeated : (c n : ℕ) → length (repeated c n) ≡ n
unfolding repeated
length-repeated c zero = omega arith
length-repeated c (suc n) = omega (arith, length-repeated c n)

abbrev sources : Sources
sources = record { token_urlsafe = λ k n. repeated 97 n; urandom = λ n. repeated 7 n }

sources-IsRandom : IsRandom sources
sources-IsRandom = record {
  urlsafe = λ k n. repeated-urlsafe n;
  long = λ k n. omega (arith, length-repeated 97 n);
  bytes = λ n. length-repeated 7 n;
}

unmarked : (n : ℕ) → contains change_me (repeated 97 n) ≡ false
unfolding contains starts_with repeated
unmarked zero = refl
unmarked (suc n) = unmarked n

generated-accepted_example :
    (validate_production_secrets ascii (configured (generated_values spelling sources)) ≡ [])
    × (encryption_key_bytes ascii spelling (configured (generated_values spelling sources))
        ≡ ok (repeated 7 32))
generated-accepted_example =
    generated-accepted ascii spelling sources spelling-IsBase64 sources-IsRandom (unmarked 24)
      (unmarked 32) (unmarked 48)

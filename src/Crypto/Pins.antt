-- ===== src/Crypto/Pins.antt =====
-- app/core/crypto.py: the shape of a PIN.
use native.Mathlib.Nat.{pow-suc}
use number_masking_service.Prelude.{
  ℕ, zero, suc, ◌+◌, ◌-◌, ◌/◌, ◌%◌, ◌^◌, ◌<◌, ◌≤◌, ◌≡◌, [], ◌∷◌, Text, length, length-append, All,
  All-append, ltb, true, arith, Bool-cases, inl, inr, subst,
}
use number_masking_service.Errors.{ok, ok-injective}
use number_masking_service.Unicode.{ascii_digit}
use number_masking_service.Crypto.{
  Primitives, decimal_fuel, decimal, zeros, zfill, pin, generate_ext_code,
}

abbrev pub Digits : Text → Type 0
Digits t = All (λ c. ascii_digit c ≡ true) t

decimal_fuel-Digits : (f n : ℕ) → Digits (decimal_fuel f n)
unfolding decimal_fuel
decimal_fuel-Digits zero n = tt
decimal_fuel-Digits (suc f) n = elim (Bool-cases (ltb n 10)) [
  | inl t ↦ rw t (ground arith, tt)
  | inr t ↦ rw t (
      All-append _ (decimal_fuel f (n / 10)) ((48 + n % 10) ∷ []) (decimal_fuel-Digits f (n / 10))
        (ground arith, tt))
]

decimal_fuel-length : (f n k : ℕ) → n < 10 ^ suc k → length (decimal_fuel f n) ≤ suc k
unfolding decimal_fuel
decimal_fuel-length zero n k h = omega arith
decimal_fuel-length (suc f) n zero h = ground arith
decimal_fuel-length (suc f) n (suc k) h =
    let small : n / 10 < 10 ^ suc k = omega (arith, pow-suc 10 (suc k)) in
    ground (
      arith,
      length-append (decimal_fuel f (n / 10)) ((48 + n % 10) ∷ []),
      decimal_fuel-length f (n / 10) k small,
    )

pow_pos : (k : ℕ) → 0 < 10 ^ k
pow_pos zero = omega arith
pow_pos (suc k) = omega (arith, pow-suc 10 k, pow_pos k)

zeros-Digits : (n : ℕ) → Digits (zeros n)
unfolding zeros
zeros-Digits zero = tt
zeros-Digits (suc n) = (ground arith, zeros-Digits n)

length-zeros : (n : ℕ) → length (zeros n) ≡ n
unfolding zeros
length-zeros zero = omega arith
length-zeros (suc n) = omega (arith, length-zeros n)

-- A PIN has as many digits as it should.
pub record IsPin (width : ℕ) (t : Text) : Type 0 where
  pub long : length t ≡ width
  pub digits : Digits t

pin-IsPin : (k n : ℕ) → n < 10 ^ suc k → IsPin (suc k) (pin (suc k) n)
unfolding pin zfill decimal
pin-IsPin k n h =
    let t = decimal_fuel (suc n) n in
    record {
      long = omega (
        arith,
        length-append (zeros (suc k - length t)) t,
        length-zeros (suc k - length t),
        decimal_fuel-length (suc n) n k h,
      );
      digits =
          All-append _ (zeros (suc k - length t)) t (zeros-Digits (suc k - length t))
            (decimal_fuel-Digits (suc n) n);
    }

-- `secrets.randbelow(n)` is below n.
abbrev pub IsBelow : Primitives → Type 0
IsBelow c = (draw n : ℕ) → 0 < n → c.randbelow draw n < n

pub generate_ext_code-IsPin :
    (c : Primitives) (draw width : ℕ) (t : Text)
    → IsBelow c
    → generate_ext_code c draw width ≡ ok t
    → IsPin width t
unfolding generate_ext_code
generate_ext_code-IsPin c draw zero t below e = absurd (cc e)
generate_ext_code-IsPin c draw (suc k) t below e = elim (Bool-cases (ltb (suc k) 1)) [
  | inl short ↦ absurd (ground arith)
  | inr long ↦
      subst (IsPin (suc k)) (ok-injective (rw long at e))
        (pin-IsPin k (c.randbelow draw (10 ^ suc k)) (below draw (10 ^ suc k) (pow_pos (suc k))))
]

pub generate_ext_code_pos :
    (c : Primitives) (draw width : ℕ) (t : Text) → generate_ext_code c draw width ≡ ok t → 0 < width
unfolding generate_ext_code
generate_ext_code_pos c draw zero t e = absurd (cc e)
generate_ext_code_pos c draw (suc k) t e = omega arith

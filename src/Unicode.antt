-- ===== src/Unicode.antt =====
-- The tables of Python's `str` that the code consults: `\d` of a regular expression, `str.isdigit`
-- and `str.strip`. Beyond ASCII they depend on the Unicode version, so they are a parameter.
use number_masking_service.Prelude.{ℕ, ◌≡◌, ◌<◌, refl, Bool, ◌&&◌, ◌||◌, leb}

abbrev pub ascii_digit : ℕ → Bool
ascii_digit c = leb 48 c && leb c 57

abbrev pub ascii_space : ℕ → Bool
ascii_space c = (leb 9 c && leb c 13) || (leb 28 c && leb c 32)

pub record Unicode : Type 0 where
  -- `\d` in a `str` pattern
  pub is_decimal : ℕ → Bool
  -- `str.isdigit` of one character
  pub is_digit : ℕ → Bool
  -- what `str.strip` takes off
  pub is_space : ℕ → Bool
  pub decimal_ascii : (c : ℕ) → c < 128 → is_decimal c ≡ ascii_digit c
  pub digit_ascii : (c : ℕ) → c < 128 → is_digit c ≡ ascii_digit c
  pub space_ascii : (c : ℕ) → c < 128 → is_space c ≡ ascii_space c

-- The tables of plain ASCII.
abbrev pub ascii : Unicode
ascii = record {
  is_decimal = ascii_digit;
  is_digit = ascii_digit;
  is_space = ascii_space;
  decimal_ascii = λ c h. refl;
  digit_ascii = λ c h. refl;
  space_ascii = λ c h. refl;
}

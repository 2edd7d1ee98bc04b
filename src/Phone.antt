-- ===== src/Phone.antt =====
-- app/core/phone.py: E.164 handling and masking. The type test of `normalize_e164` is not
-- modelled: its argument is a text.
pub mod Mask
pub mod Runs
pub mod Scrub
pub mod Normal
pub mod Canonical
use number_masking_service.Prelude.{
  ℕ, ◌≡◌, refl, zero, suc, ◌-◌, Option, none, some, [], ◌∷◌, ◌++◌, Bool, true, false, ◌&&◌, ◌||◌,
  Text, codes, is_empty, filter, length, take, drop, leb, ◌==◌, if◌then◌else◌,
}
use mathlib.Core.List.{reverse}
use number_masking_service.Errors.{Result, ok, err, invalid_phone_number_error}
use number_masking_service.Unicode.{Unicode, ascii}

abbrev pub plus : ℕ
plus = 43

-- `text.startswith(prefix)`.
unfoldable pub starts_with : Text → Text → Bool
starts_with t [] = true
starts_with [] (c ∷ p) = false
starts_with (d ∷ t) (c ∷ p) = d == c && starts_with t p

unfoldable pub strip_left : Unicode → Text → Text
strip_left u [] = []
strip_left u (c ∷ t) = if u.is_space c then strip_left u t else c ∷ t

unfoldable pub strip : Unicode → Text → Text
unfolding strip_left
strip u t = reverse (strip_left u (reverse (strip_left u t)))

-- `re.sub(r"\D", "", raw)`.
unfoldable pub digits_of : Unicode → Text → Text
digits_of u raw = filter (λ c. u.is_decimal c) raw

-- `\d{lo,hi}$`: as many decimals as allowed, then the end, or a line feed that ends the text.
unfoldable pub tail_matches : Unicode → ℕ → ℕ → Text → Bool
tail_matches u lo hi [] = lo == 0
tail_matches u lo zero (c ∷ t) = lo == 0 && (c == 10 && is_empty t)
tail_matches u lo (suc hi) (c ∷ t) =
    (u.is_decimal c && tail_matches u (lo - 1) hi t) || (lo == 0 && (c == 10 && is_empty t))

-- `E164_RE.match`: `^\+[1-9]\d{6,14}$`.
unfoldable pub e164_matches : Unicode → Text → Bool
unfolding tail_matches
e164_matches u [] = false
e164_matches u (c ∷ []) = false
e164_matches u (c ∷ d ∷ t) = c == plus && ((leb 49 d && leb d 57) && tail_matches u 6 14 t)

abbrev pub national_number_length : ℕ
national_number_length = 11

default_prefix : Option Text → Text
default_prefix none = codes "7"
default_prefix (some p) = if is_empty p then codes "7" else p

-- The notation of a number with no plus.
unfoldable pub international : Option Text → Text → Text
unfolding starts_with default_prefix
international prefix digits =
    if starts_with digits (codes "8") && length digits == national_number_length
    then default_prefix prefix ++ drop 1 digits
    else if starts_with digits (codes "00")
    then drop 2 digits
    else digits

unfoldable pub check_e164 : Unicode → Text → Result Text
unfolding e164_matches
check_e164 u candidate =
    if e164_matches u candidate then ok candidate else err invalid_phone_number_error

unfoldable pub normalize_e164 : Unicode → Option Text → Text → Result Text
unfolding strip digits_of starts_with international check_e164
normalize_e164 u prefix value =
    let raw = strip u value in
    let digits = digits_of u raw in
    if is_empty raw
    then err invalid_phone_number_error
    else if is_empty digits
    then err invalid_phone_number_error
    else check_e164 u
        (plus ∷ (if starts_with raw (codes "+") then digits else international prefix digits))

unfoldable pub is_e164 : Unicode → Text → Bool
unfolding e164_matches
is_e164 u value = e164_matches u value

unfoldable pub stars : ℕ → Text
stars zero = []
stars (suc n) = 42 ∷ stars n

-- `text[-n:]`.
unfoldable pub last : ℕ → Text → Text
last n t = drop (length t - n) t

unfoldable pub mask_e164 : Text → Text
unfolding stars last
mask_e164 value =
    if is_empty value
    then []
    else if leb (length value) 6
    then stars (length value - 2) ++ last 2 value
    else take 5 value ++ codes "***" ++ last 4 value

-- How many decimals the text begins with, up to `limit`.
unfoldable pub run : Unicode → ℕ → Text → ℕ
run u zero t = 0
run u (suc limit) [] = 0
run u (suc limit) (c ∷ t) = let more = run u limit t in if u.is_decimal c then suc more else 0

-- The length of the match of `\+?\d{7,15}` at the start of a text, or 0.
unfoldable pub loose_match : Unicode → Text → ℕ
unfolding run
loose_match u [] = 0
loose_match u (c ∷ t) =
    if c == plus && leb 7 (run u 15 t)
    then suc (run u 15 t)
    else if leb 7 (run u 15 (c ∷ t))
    then run u 15 (c ∷ t)
    else 0

-- `_LOOSE_NUMBER_RE.sub`: `skip` characters still belong to the last match.
unfoldable pub scrub_from : Unicode → ℕ → Text → Text
unfolding loose_match mask_e164
scrub_from u skip [] = []
scrub_from u (suc skip) (c ∷ t) = scrub_from u skip t
scrub_from u zero (c ∷ t) =
    let n = loose_match u (c ∷ t) in
    let rest = scrub_from u (n - 1) t in
    if n == 0 then c ∷ rest else mask_e164 (take n (c ∷ t)) ++ rest

unfoldable pub scrub_text : Unicode → Text → Text
unfolding scrub_from
scrub_text u t = scrub_from u 0 t

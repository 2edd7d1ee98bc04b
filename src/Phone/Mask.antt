-- ===== src/Phone/Mask.antt =====
-- app/core/phone.py: what `mask_e164` shows.
use number_masking_service.Prelude.{
  ℕ, ◌+◌, ◌-◌, ◌≡◌, subst, ◌++◌, arith, false, Text, codes, leb, is_empty, length, take,
  length-append, take-append, drop-append, append_assoc,
}
use number_masking_service.Phone.{mask_e164, last}

last-append : (s t : Text) (n : ℕ) → length t ≡ n → last n (s ++ t) ≡ t
unfolding last
last-append s t n h =
    let e : length (s ++ t) - n ≡ length s = omega (arith, length-append s t) in
    rw e (drop-append s t)

-- A number of nine characters or more is shown by its first five and its last four; what stands
-- between them does not show, not even by its length.
pub mask_e164_hides :
    (front middle back : Text)
    → length front ≡ 5
    → length back ≡ 4
    → mask_e164 (front ++ (middle ++ back)) ≡ front ++ codes "***" ++ back
unfolding mask_e164
mask_e164_hides front middle back h k =
    let t = front ++ (middle ++ back) in
    let n : length t ≡ 5 + (length middle + 4) =
      omega (arith, length-append front (middle ++ back), length-append middle back) in
    let some_text : is_empty t ≡ false = ground (arith, n) in
    let long : leb (length t) 6 ≡ false = ground (arith, n) in
    let shown : take 5 t ≡ front =
      subst (λ m. take m t ≡ front) h (take-append front (middle ++ back)) in
    let kept : last 4 t ≡ back =
      rw (← append_assoc front middle back) (last-append (front ++ middle) back 4 k) in
    rw (some_text, long, shown, kept)

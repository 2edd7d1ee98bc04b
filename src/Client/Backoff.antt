-- ===== src/Client/Backoff.antt =====
-- app/ari/client.py: the pauses in closed form, and the errors that count.
use number_masking_service.Prelude.{
  ℕ, suc, ◌*◌, ◌^◌, ◌≤◌, ◌≡◌, refl, sym, ap, ap₂, ◌∙◌, min, List, [], ◌∷◌, arith,
}
use native.Mathlib.Nat.{pow-suc, mul_assoc}
use number_masking_service.Client.{Connection, refused, broken, closed, pauses}

-- The pause after `n` connections in a row that failed since the last one that was made, where a
-- connection that broke counts as the first of them.
abbrev pub pause : ℕ → ℕ → ℕ → ℕ
pause least most n = min (least * 2 ^ n) most

abbrev pub paused : ℕ → ℕ → ℕ → List Connection → List ℕ
paused least most n [] = []
paused least most n (refused ∷ rest) = pause least most n ∷ paused least most (suc n) rest
paused least most n (broken ∷ rest) = pause least most 0 ∷ paused least most 1 rest
paused least most n (closed ∷ rest) = pause least most 0 ∷ paused least most 0 rest

pause-suc : (least most n : ℕ) → min (pause least most n * 2) most ≡ pause least most (suc n)
pause-suc least most n = rw (pow-suc 2 n, sym (mul_assoc least (2 ^ n) 2)) (doubled (least * 2 ^ n))
  where
    doubled : (x : ℕ) → min (min x most * 2) most ≡ min (x * 2) most
    doubled x = omega arith

pauses-from :
    (least most delay n : ℕ) (history : List Connection)
    → least ≤ most
    → delay ≡ pause least most n
    → pauses least most delay history ≡ paused least most n history
unfolding pauses
pauses-from least most delay n [] le h = refl
pauses-from least most delay n (refused ∷ rest) le h =
    ap₂ (λ x xs. x ∷ xs) h
      (pauses-from least most (min (delay * 2) most) (suc n) rest le
        (ap (λ d. min (d * 2) most) h ∙ pause-suc least most n))
pauses-from least most delay n (broken ∷ rest) le h =
    ap₂ (λ x xs. x ∷ xs) (omega arith)
      (pauses-from least most (min (least * 2) most) 1 rest le (omega arith))
pauses-from least most delay n (closed ∷ rest) le h =
    ap₂ (λ x xs. x ∷ xs) (omega arith) (pauses-from least most least 0 rest le (omega arith))

-- The pauses between the connections of the event stream back off as they should, where the least pause
-- is not above the greatest: behind a connection that failed as the n-th in a row since the last one
-- that was made, counting from 0, the pause is the least one doubled n times, or the greatest.
pub pauses_lem :
    (least most : ℕ) (history : List Connection)
    → least ≤ most
    → pauses least most least history ≡ paused least most 0 history
pauses_lem least most history le = pauses-from least most least 0 history le (omega arith)

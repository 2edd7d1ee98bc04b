-- ===== src/Dtmf/Typing.antt =====
-- app/ari/dtmf.py: a code that is typed in time is collected as it was typed.
use number_masking_service.Prelude.{
  ℕ, ◌+◌, ◌≡◌, ◌<◌, List, [], ◌∷◌, ◌++◌, true, false, Text, text_eq, codes, All, length,
  length-append, arith, append_assoc, ap₂, ◌∙◌,
}
use number_masking_service.Unicode.{Unicode}
use number_masking_service.Dtmf.{Collector, Arrival, isdigit, done, loop, collect}

-- A key that is a digit, pressed before the inter-digit timeout.
pub record IsPrompt (u : Unicode) (c : Collector) (a : Arrival) : Type 0 where
  pub digit : isdigit u a.digit ≡ true
  pub no_hash : text_eq a.digit (codes "#") ≡ false
  pub no_star : text_eq a.digit (codes "*") ≡ false
  pub soon : a.wait < c.digit_timeout

abbrev pub keys : List Arrival → List Text
keys [] = []
keys (a ∷ rest) = a.digit ∷ keys rest

abbrev pub time : List Arrival → ℕ
time [] = 0
time (a ∷ rest) = a.wait + time rest

module _ (u : Unicode) (c : Collector) where
  loop_digit :
      (deadline now : ℕ) (b : List Text) (a : Arrival) (rest : List Arrival)
      → IsPrompt u c a
      → now + a.wait < deadline
      → length b + 1 < c.length
      → loop u c deadline now b (a ∷ rest)
        ≡ loop u c deadline (now + a.wait) (b ++ a.digit ∷ []) rest
  unfolding loop
  loop_digit deadline now b a rest h t n = ground (arith, length-append b (a.digit ∷ []))

  loop_typed :
      (deadline now : ℕ) (b : List Text) (a : Arrival) (rest more : List Arrival)
      → All (IsPrompt u c) (a ∷ rest)
      → length b + length (a ∷ rest) ≡ c.length
      → now + time (a ∷ rest) < deadline
      → loop u c deadline now b ((a ∷ rest) ++ more)
        ≡ done (now + time (a ∷ rest)) (b ++ keys (a ∷ rest))
  unfolding loop
  loop_typed deadline now b a [] more h n t = ground (arith, length-append b (a.digit ∷ []))
  loop_typed deadline now b a (a' ∷ rest) more h n t =
      loop_digit deadline now b a (a' ∷ rest ++ more) h.0 (omega arith) (omega arith)
      ∙ loop_typed deadline (now + a.wait) (b ++ a.digit ∷ []) a' rest more h.1
          (omega (arith, length-append b (a.digit ∷ []))) (omega arith)
      ∙ ap₂ done (omega arith) (append_assoc b (a.digit ∷ []) (keys (a' ∷ rest)))

-- A caller who presses as many digits as the code has, each before the inter-digit timeout and all
-- before the deadline, is heard: the digits come back as typed, submitted, at the last key press,
-- whatever is pressed afterwards.
pub collect_typed :
    (u : Unicode) (c : Collector) (now : ℕ) (a : Arrival) (rest more : List Arrival)
    → All (IsPrompt u c) (a ∷ rest)
    → length (a ∷ rest) ≡ c.length
    → time (a ∷ rest) < c.total_timeout
    → collect u c now ((a ∷ rest) ++ more) ≡ done (now + time (a ∷ rest)) (keys (a ∷ rest))
unfolding collect
collect_typed u c now a rest more h n t =
    loop_typed u c (now + c.total_timeout) now [] a rest more h (omega arith) (omega arith)

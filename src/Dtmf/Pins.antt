-- ===== src/Dtmf/Pins.antt =====
-- app/core/crypto.py with app/ari/dtmf.py: a PIN that was generated can be pressed.
use number_masking_service.Prelude.{
  ℕ, suc, ◌+◌, ◌≡◌, ◌<◌, ◌∙◌, refl, ap, subst, List, [], ◌∷◌, ◌++◌, true, false, Text, text_eq, All,
  length, arith,
}
use number_masking_service.Errors.{ok}
use number_masking_service.Unicode.{Unicode}
use number_masking_service.Crypto.{Primitives, generate_ext_code}
use number_masking_service.Crypto.Pins.{
  Digits, IsPin, IsBelow, generate_ext_code-IsPin, generate_ext_code_pos,
}
use number_masking_service.Dtmf.{Collector, Collected, Arrival, isdigit, join, done, collect}
use number_masking_service.Dtmf.Typing.{IsPrompt, keys, time, collect_typed}

-- The keys of a text, pressed one by one, each after its pause.
abbrev pub pressed : List ℕ → Text → List Arrival
pressed [] t = []
pressed (wait ∷ waits) [] = []
pressed (wait ∷ waits) (d ∷ t) = record { wait = wait; digit = d ∷ [] } ∷ pressed waits t

abbrev pub sum : List ℕ → ℕ
sum [] = 0
sum (wait ∷ waits) = wait + sum waits

module _ (u : Unicode) (k : Collector) where
  pressed-IsPrompt :
      (waits : List ℕ) (t : Text)
      → All (λ wait. wait < k.digit_timeout) waits
      → Digits t
      → All (IsPrompt u k) (pressed waits t)
  unfolding isdigit text_eq
  pressed-IsPrompt [] t soon h = tt
  pressed-IsPrompt (wait ∷ waits) [] soon h = tt
  pressed-IsPrompt (wait ∷ waits) (d ∷ t) soon h = (
    record {
      digit = ground (arith, u.digit_ascii d);
      no_hash = ground arith;
      no_star = ground arith;
      soon = soon.0;
    },
    pressed-IsPrompt waits t soon.1 h.1,
  )

time-pressed :
    (waits : List ℕ) (t : Text) → length waits ≡ length t → time (pressed waits t) ≡ sum waits
time-pressed [] t h = refl
time-pressed (wait ∷ waits) [] h = absurd (omega arith)
time-pressed (wait ∷ waits) (d ∷ t) h = ap (λ n. wait + n) (time-pressed waits t (omega arith))

length-pressed :
    (waits : List ℕ) (t : Text) → length waits ≡ length t → length (pressed waits t) ≡ length t
length-pressed [] t h = h
length-pressed (wait ∷ waits) [] h = refl
length-pressed (wait ∷ waits) (d ∷ t) h = ap suc (length-pressed waits t (omega arith))

join-keys :
    (waits : List ℕ) (t : Text) → length waits ≡ length t → join (keys (pressed waits t)) ≡ t
unfolding join
join-keys [] [] h = refl
join-keys [] (d ∷ t) h = absurd (omega arith)
join-keys (wait ∷ waits) [] h = refl
join-keys (wait ∷ waits) (d ∷ t) h = ap (λ x. d ∷ x) (join-keys waits t (omega arith))

heard :
    (u : Unicode) (k : Collector) (now : ℕ) (waits : List ℕ) (t : Text) (more : List Arrival)
    → IsPin k.length t
    → 0 < k.length
    → length waits ≡ k.length
    → All (λ wait. wait < k.digit_timeout) waits
    → sum waits < k.total_timeout
    → collect u k now (pressed waits t ++ more) ≡ done (now + sum waits) (keys (pressed waits t))
heard u k now [] t more p some all soon enough = absurd (omega arith)
heard u k now (wait ∷ waits) [] more p some all soon enough = absurd (omega (arith, p.long))
heard u k now (wait ∷ waits) (d ∷ t) more p some all soon enough =
    let matched : length (wait ∷ waits) ≡ length (d ∷ t) = omega (arith, p.long) in
    let whole = time-pressed (wait ∷ waits) (d ∷ t) matched in
    subst
      (λ n.
        collect u k now (pressed (wait ∷ waits) (d ∷ t) ++ more)
        ≡ done (now + n) (keys (pressed (wait ∷ waits) (d ∷ t))))
      whole
      (collect_typed u k now (record { wait = wait; digit = d ∷ [] }) (pressed waits t) more
        (pressed-IsPrompt u k (wait ∷ waits) (d ∷ t) soon p.digits)
        (length-pressed (wait ∷ waits) (d ∷ t) matched ∙ p.long) (omega (arith, whole)))

abbrev report : ℕ → Text → Collected
report ended digits = record {
  result = record { digits = digits; timed_out = false; submitted = true };
  ended = ended;
}

-- A PIN that was generated for a collector is heard as it is, whoever types its digits one by one,
-- with any pauses, each within the inter-digit timeout and all of them within the total: the result
-- is that PIN, submitted. What `randbelow` returns is below its bound.
pub pin_heard :
    (c : Primitives) (u : Unicode) (k : Collector) (draw now : ℕ) (waits : List ℕ) (t : Text)
    (more : List Arrival)
    → IsBelow c
    → generate_ext_code c draw k.length ≡ ok t
    → length waits ≡ k.length
    → All (λ wait. wait < k.digit_timeout) waits
    → sum waits < k.total_timeout
    → collect u k now (pressed waits t ++ more) ≡ record {
      result = record { digits = t; timed_out = false; submitted = true };
      ended = now + sum waits;
    }
unfolding done
pin_heard c u k draw now waits t more below e all soon enough =
    let good = generate_ext_code-IsPin c draw k.length t below e in
    heard u k now waits t more good (generate_ext_code_pos c draw k.length t e) all soon enough
    ∙ ap (report (now + sum waits)) (join-keys waits t (omega (arith, good.long)))

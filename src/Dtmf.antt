-- ===== src/Dtmf.antt =====
-- app/ari/dtmf.py: the collection of DTMF digits. What the event loop delivers is the list of
-- arrivals: how long `queue.get()` waits for the next digit, and the digit. Times are any unit;
-- a wait that lasts as long as its timeout has timed out.
pub mod Bounds
pub mod Typing
pub mod Pins
use number_masking_service.Prelude.{
  ℕ, ◌+◌, ◌-◌, List, [], ◌∷◌, ◌++◌, Bool, true, false, not, ◌&&◌, Text, text_eq, is_empty, codes,
  all, leb, ltb, length, min, if◌then◌else◌,
}
use number_masking_service.Unicode.{Unicode}

pub record CollectResult : Type 0 where
  pub digits : Text
  pub timed_out : Bool
  pub submitted : Bool

-- `ended` is the time at which `collect` returns.
pub record Collected : Type 0 where
  pub result : CollectResult
  pub ended : ℕ

pub record Collector : Type 0 where
  pub length : ℕ
  pub digit_timeout : ℕ
  pub total_timeout : ℕ

pub record Arrival : Type 0 where
  pub wait : ℕ
  pub digit : Text

-- `"".join(buffer)`.
unfoldable pub join : List Text → Text
join [] = []
join (t ∷ ts) = t ++ join ts

-- `digit.isdigit()`: one character at least, and all are digits.
unfoldable pub isdigit : Unicode → Text → Bool
isdigit u t = not (is_empty t) && all t (λ c. u.is_digit c)

unfoldable pub stopped : ℕ → List Text → Collected
unfolding join
stopped now buffer = record {
  result = record { digits = join buffer; timed_out = true; submitted = false };
  ended = now;
}

unfoldable pub done : ℕ → List Text → Collected
unfolding join
done now buffer = record {
  result = record { digits = join buffer; timed_out = false; submitted = true };
  ended = now;
}

module _ (u : Unicode) (c : Collector) where
  -- The `while True` loop. With no arrival left, the wait times out.
  unfoldable pub loop : ℕ → ℕ → List Text → List Arrival → Collected
  unfolding isdigit stopped done
  loop deadline now buffer [] =
      if leb deadline now
      then stopped now buffer
      else stopped (now + min c.digit_timeout (deadline - now)) buffer
  loop deadline now buffer (a ∷ rest) =
      let wait_for = min c.digit_timeout (deadline - now) in
      let cleared = loop deadline (now + a.wait) [] rest in
      let ignored = loop deadline (now + a.wait) buffer rest in
      let longer = buffer ++ a.digit ∷ [] in
      let appended = loop deadline (now + a.wait) longer rest in
      if leb deadline now
      then stopped now buffer
      else if leb wait_for a.wait
      then stopped (now + wait_for) buffer
      else if text_eq a.digit (codes "#")
      then done (now + a.wait) buffer
      else if text_eq a.digit (codes "*")
      then cleared
      else if not (isdigit u a.digit)
      then ignored
      else if leb c.length (length longer)
      then done (now + a.wait) longer
      else appended

  unfoldable pub collect : ℕ → List Arrival → Collected
  collect now arrivals = loop (now + c.total_timeout) now [] arrivals

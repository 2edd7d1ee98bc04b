-- ===== src/Dtmf/Bounds.antt =====
-- app/ari/dtmf.py: what a collection may return, and when.
use number_masking_service.Prelude.{
  ℕ, ◌+◌, ◌-◌, ◌≡◌, ◌≤◌, refl, List, [], ◌∷◌, ◌++◌, true, not, Text, text_eq, codes, All,
  All-append, leb, length, min, arith, all, if_induction,
}
use number_masking_service.Unicode.{Unicode}
use number_masking_service.Dtmf.{
  Collector, Collected, Arrival, join, isdigit, stopped, done, loop, collect,
}

abbrev pub Digits : Unicode → Text → Type 0
Digits u t = All (λ d. u.is_digit d ≡ true) t

-- The digits are digits, and the attempt was submitted or timed out, not both.
pub record IsOutcome (u : Unicode) (deadline : ℕ) (r : Collected) : Type 0 where
  pub numeric : Digits u r.result.digits
  pub one_way : r.result.submitted ≡ not r.result.timed_out
  pub in_time : r.ended ≤ deadline

module _ (u : Unicode) where
  join-numeric : (b : List Text) → All (Digits u) b → Digits u (join b)
  unfolding join
  join-numeric [] h = tt
  join-numeric (t ∷ ts) h = All-append _ t (join ts) h.0 (join-numeric ts h.1)

  all-All : (t : Text) → all t (λ d. u.is_digit d) ≡ true → Digits u t
  all-All [] h = tt
  all-All (d ∷ t) h = ground (arith, all-All t)

  isdigit-numeric : (t : Text) → isdigit u t ≡ true → Digits u t
  unfolding isdigit
  isdigit-numeric t h = all-All t (ground arith)

  stopped-IsOutcome :
      (deadline now : ℕ) (b : List Text)
      → All (Digits u) b
      → now ≤ deadline
      → IsOutcome u deadline (stopped now b)
  unfolding stopped
  stopped-IsOutcome deadline now b h k = record {
    numeric = join-numeric b h;
    one_way = refl;
    in_time = k;
  }

  done-IsOutcome :
      (deadline now : ℕ) (b : List Text)
      → All (Digits u) b
      → now ≤ deadline
      → IsOutcome u deadline (done now b)
  unfolding done
  done-IsOutcome deadline now b h k = record {
    numeric = join-numeric b h;
    one_way = refl;
    in_time = k;
  }

  loop-IsOutcome :
      (c : Collector) (deadline now : ℕ) (b : List Text) (arrivals : List Arrival)
      → All (Digits u) b
      → now ≤ deadline
      → IsOutcome u deadline (loop u c deadline now b arrivals)
  unfolding loop
  loop-IsOutcome c deadline now b [] h k =
      if_induction (IsOutcome u deadline) (leb deadline now)
        (λ t. stopped-IsOutcome deadline now b h k)
        (λ f. stopped-IsOutcome deadline _ b h (ground arith))
  loop-IsOutcome c deadline now b (a ∷ rest) h k =
      if_induction P (leb deadline now) (λ t. stopped-IsOutcome deadline now b h k)
        λ f.
          if_induction P (leb (min c.digit_timeout (deadline - now)) a.wait)
            (λ t. stopped-IsOutcome deadline _ b h (ground arith))
            λ g.
              let soon : now + a.wait ≤ deadline = ground arith in
              if_induction P (text_eq a.digit (codes "#")) (λ t. done-IsOutcome deadline _ b h soon)
                λ n.
                  if_induction P (text_eq a.digit (codes "*"))
                    (λ t. loop-IsOutcome c deadline (now + a.wait) [] rest tt soon)
                    λ m.
                      if_induction P (not (isdigit u a.digit))
                        (λ t. loop-IsOutcome c deadline (now + a.wait) b rest h soon)
                        λ d.
                          let longer =
                            All-append (Digits u) b (a.digit ∷ []) h
                              (isdigit-numeric a.digit (ground arith), tt) in
                          if_induction P (leb c.length (length (b ++ a.digit ∷ [])))
                            (λ t. done-IsOutcome deadline _ _ longer soon)
                            (λ s. loop-IsOutcome c deadline (now + a.wait) _ rest longer soon)
    where
      P : Collected → Type 0
      P = IsOutcome u deadline

-- Whatever the caller presses, a collection ends by its deadline, the digits that it returns are
-- digits, and it is reported as submitted exactly when it has not timed out.
pub collect-IsOutcome :
    (u : Unicode) (c : Collector) (now : ℕ) (arrivals : List Arrival)
    → IsOutcome u (now + c.total_timeout) (collect u c now arrivals)
unfolding collect
collect-IsOutcome u c now arrivals =
    loop-IsOutcome u c (now + c.total_timeout) now [] arrivals tt (omega arith)

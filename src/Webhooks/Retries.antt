-- ===== src/Webhooks/Retries.antt =====
-- app/services/webhooks.py: how often a delivery is tried, and what lies between the attempts.
use number_masking_service.Prelude.{
  ℕ, zero, suc, ◌+◌, ◌-◌, ◌^◌, ◌∙◌, sym, min, ltb, true, ◌≡◌, ◌≤◌, refl, ap, List, [], ◌∷◌, Bool,
  false, ◌||◌, arith, if_induction,
}
use native.Mathlib.Numerals.{unary_clauses}
use native.Mathlib.Nat.{pow-suc}
use number_masking_service.Settings.{Settings}
use number_masking_service.Webhooks.{
  Reply, status_code, failed, Delivery, accepted, next_delay, again, attempts, deliver,
}

-- The first `n` delays from the one numbered `k`: a second, doubled `k` times, but a minute at most.
abbrev pub backoff : ℕ → ℕ → List ℕ
backoff zero k = []
backoff (suc n) k = min (2 ^ k) 60 ∷ backoff n (suc k)

-- An answer with a status below 400.
abbrev pub welcome : Reply → Bool
welcome (status_code n) = ltb n 400
welcome failed = false

-- Whether one of `n` attempts from `attempt` on is answered so.
abbrev pub some_welcome : ℕ → ℕ → (ℕ → Reply) → Bool
some_welcome zero attempt respond = false
some_welcome (suc n) attempt respond =
    welcome (respond attempt) || some_welcome n (attempt + 1) respond

accepted-welcome : (reply : Reply) → accepted reply ≡ welcome reply
unfolding accepted
accepted-welcome (status_code n) = refl
accepted-welcome failed = refl

next_delay-doubles : (k : ℕ) → next_delay (min (2 ^ k) 60) ≡ min (2 ^ suc k) 60
unfolding next_delay
next_delay-doubles k = omega (arith, pow-suc 2 k)

-- At most `limit` requests, backing off between them, and delivered if one of the attempts that
-- the limit allows is answered below 400.
pub record IsRetried (limit attempt k : ℕ) (respond : ℕ → Reply) (d : Delivery) : Type 0 where
  pub bounded : d.posts ≤ limit
  pub backed_off : d.sleeps ≡ backoff (d.posts - 1) k
  pub verdict : d.delivered ≡ some_welcome limit attempt respond
  pub spent : d.delivered ≡ false → d.posts ≡ limit

attempts-posts :
    (left attempt delay : ℕ) (respond : ℕ → Reply)
    → 1 ≤ (attempts (suc left) attempt delay respond).posts
unfolding attempts again
attempts-posts zero attempt delay respond = omega arith
attempts-posts (suc left) attempt delay respond =
    if_induction (λ (d : Delivery). 1 ≤ d.posts) (accepted (respond attempt)) (λ t. omega arith)
      (λ f. omega arith)

backoff-again :
    (posts k : ℕ) (sleeps : List ℕ)
    → 1 ≤ posts
    → sleeps ≡ backoff (posts - 1) (suc k)
    → min (2 ^ k) 60 ∷ sleeps ≡ backoff (suc posts - 1) k
backoff-again zero k sleeps h e = absurd (omega arith)
backoff-again (suc posts) k sleeps h e =
    simp unary_clauses (ap (λ l. min (2 ^ k) 60 ∷ l) (simp unary_clauses at e))

-- A rejected attempt followed by `rest`.
again-IsRetried :
    (left attempt k : ℕ) (respond : ℕ → Reply) (rest : Delivery)
    → 1 ≤ rest.posts
    → accepted (respond attempt) ≡ false
    → IsRetried left (attempt + 1) (suc k) respond rest
    → IsRetried (suc left) attempt k respond (again (min (2 ^ k) 60) rest)
unfolding again
again-IsRetried left attempt k respond rest h f ih =
    let no : welcome (respond attempt) ≡ false = sym (accepted-welcome (respond attempt)) ∙ f in
    record {
      bounded = ground (arith, ih.bounded);
      backed_off = backoff-again rest.posts k rest.sleeps h ih.backed_off;
      verdict = rw no ih.verdict;
      spent = λ e. ap suc (ih.spent e);
    }

attempts-IsRetried :
    (limit attempt k : ℕ) (respond : ℕ → Reply)
    → IsRetried limit attempt k respond (attempts limit attempt (min (2 ^ k) 60) respond)
unfolding attempts
attempts-IsRetried zero attempt k respond = record {
  bounded = omega arith;
  backed_off = refl;
  verdict = refl;
  spent = λ e. refl;
}
attempts-IsRetried (suc zero) attempt k respond = record {
  bounded = omega arith;
  backed_off = refl;
  verdict = ground (arith, accepted-welcome (respond attempt));
  spent = λ e. refl;
}
attempts-IsRetried (suc (suc left)) attempt k respond =
    let later = attempts-IsRetried (suc left) (attempt + 1) (suc k) respond in
    rw (next_delay-doubles k) (
      if_induction (IsRetried (suc (suc left)) attempt k respond) (accepted (respond attempt))
        (λ t.
          let yes : welcome (respond attempt) ≡ true =
            sym (accepted-welcome (respond attempt)) ∙ t in
          record {
            bounded = omega arith;
            backed_off = refl;
            verdict = rw yes refl;
            spent = λ e. absurd (ground arith);
          })
        (λ f.
          again-IsRetried (suc left) attempt k respond
            (attempts (suc left) (attempt + 1) (min (2 ^ suc k) 60) respond)
            (attempts-posts left (attempt + 1) (min (2 ^ suc k) 60) respond) f later))

-- A delivery makes at most `webhook_max_attempts` requests; the delay behind the k-th of them,
-- counting from 0, is one second doubled k times, but a minute at most; it succeeds exactly if one of
-- the attempts that the limit allows is answered with a status below 400; and it gives up only when
-- all of them are spent.
pub deliver-IsRetried :
    (settings : Settings) (respond : ℕ → Reply)
    → IsRetried settings.webhook_max_attempts 1 0 respond (deliver settings respond)
unfolding deliver
deliver-IsRetried settings respond = attempts-IsRetried settings.webhook_max_attempts 1 0 respond

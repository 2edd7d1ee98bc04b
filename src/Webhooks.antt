-- ===== src/Webhooks.antt =====
-- app/services/webhooks.py: one delivery with its retries. What the endpoint answers to each
-- attempt is a function of the attempt; an exception of the HTTP client is `failed`. Delays are
-- whole seconds, which the code's floats are too.
pub mod Retries
use number_masking_service.Prelude.{
  ℕ, zero, suc, ◌+◌, ◌*◌, min, List, [], ◌∷◌, Bool, true, false, ltb, if◌then◌else◌,
}
use number_masking_service.Settings.{Settings, webhooks_enabled}

pub data Reply : Type 0 where
  status_code : ℕ → Reply
  failed : Reply

abbrev pub http_error_threshold : ℕ
http_error_threshold = 400

abbrev pub initial_retry_delay_seconds : ℕ
initial_retry_delay_seconds = 1

abbrev pub max_retry_delay_seconds : ℕ
max_retry_delay_seconds = 60

-- How a delivery went: the requests made, the delays slept, and whether one was accepted.
pub record Delivery : Type 0 where
  pub posts : ℕ
  pub sleeps : List ℕ
  pub delivered : Bool

unfoldable pub accepted : Reply → Bool
accepted (status_code n) = ltb n http_error_threshold
accepted failed = false

unfoldable pub next_delay : ℕ → ℕ
next_delay delay = min (delay * 2) max_retry_delay_seconds

again : ℕ → Delivery → Delivery
again delay d = record { posts = suc d.posts; sleeps = delay ∷ d.sleeps; delivered = d.delivered }

-- The loop, with the attempts left, the number of this attempt and the delay behind it.
unfoldable pub attempts : ℕ → ℕ → ℕ → (ℕ → Reply) → Delivery
unfolding accepted next_delay again
attempts zero attempt delay respond = record { posts = 0; sleeps = []; delivered = false }
attempts (suc zero) attempt delay respond = record {
  posts = 1;
  sleeps = [];
  delivered = accepted (respond attempt);
}
attempts (suc (suc left)) attempt delay respond =
    let retry = again delay (attempts (suc left) (attempt + 1) (next_delay delay) respond) in
    if accepted (respond attempt)
    then record { posts = 1; sleeps = []; delivered = true }
    else retry

-- `_deliver`.
unfoldable pub deliver : Settings → (ℕ → Reply) → Delivery
unfolding attempts
deliver settings respond =
    attempts settings.webhook_max_attempts 1 initial_retry_delay_seconds respond

-- `emit`: nothing is sent where no endpoint and secret are configured.
unfoldable pub emit : Settings → (ℕ → Reply) → Delivery
unfolding deliver
emit settings respond =
    if webhooks_enabled settings
    then deliver settings respond
    else record { posts = 0; sleeps = []; delivered = false }

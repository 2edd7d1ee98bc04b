-- ===== src/Settings.antt =====
-- app/core/config.py: the settings that the services read. Seconds, hours and counts that the code
-- only adds or compares as they are stand as natural numbers; a lifetime, which it tests for its
-- sign, is an integer.
use number_masking_service.Prelude.{ℕ, Text, Bool, ◌*◌, not, is_empty, ◌&&◌}

-- `negsuc n` is -(n + 1).
pub data ℤ : Type 0 where
  pos : ℕ → ℤ
  negsuc : ℕ → ℤ

pub data CooldownScope : Type 0 where
  number party : CooldownScope

pub data ExtCodeMode : Type 0 where
  auto always never : ExtCodeMode

pub record Settings : Type 0 where
  pub default_ttl_seconds : ℤ
  pub max_ttl_seconds : ℤ
  pub number_cooldown_hours : ℕ
  pub cooldown_scope : CooldownScope
  pub ari_app : Text
  pub endpoint_template : Text
  pub originate_timeout : ℕ
  pub ext_code_mode : ExtCodeMode
  pub ext_code_length : ℕ
  pub ext_code_max_per_number : ℕ
  pub dtmf_max_attempts : ℕ
  pub call_retention_days : ℕ
  pub closed_session_retention_days : ℕ
  pub party_hash_secret : Text
  -- `encryption_key_bytes`
  pub encryption_key : Text
  pub webhook_url : Text
  pub webhook_secret : Text
  pub webhook_max_attempts : ℕ
  pub sound_expired : Text
  pub sound_unknown : Text
  pub sound_enter_code : Text
  pub sound_wrong_code : Text
  pub sound_error : Text

unfoldable pub webhooks_enabled : Settings → Bool
webhooks_enabled s = not (is_empty s.webhook_url) && not (is_empty s.webhook_secret)

-- Moments and spans of time are microseconds.
abbrev pub second : ℕ
second = 1_000_000

abbrev pub hour : ℕ
hour = 3600 * second

abbrev pub day : ℕ
day = 24 * hour

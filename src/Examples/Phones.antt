-- ===== src/Examples/Phones.antt =====
-- Trials of the normalisation and the masking of phone numbers, and of the life of a session.
use number_masking_service.Prelude.{
  ◌≤◌, ◌+◌, ◌*◌, ◌≡◌, refl, none, [], ◌∷◌, ◌++◌, codes, All, In, filter,
}
use number_masking_service.Errors.{ok}
use number_masking_service.Unicode.{ascii}
use number_masking_service.Settings.{day}
use number_masking_service.Phone.{normalize_e164, mask_e164, scrub_text}
use number_masking_service.Phone.Mask.{mask_e164_hides}
use number_masking_service.Phone.Normal.{IsE164, normalize_e164-IsE164}
use number_masking_service.Db.{Db, Session, active, is_active}
use number_masking_service.Lifecycle.{purge_old_records}
use number_masking_service.Lifecycle.Retention.{purge_old_records_keeps}
use number_masking_service.Journal.{Call}
use number_masking_service.Examples.Journals.{lost_call}
use number_masking_service.Examples.{plain_settings, empty_db}

local : normalize_e164 ascii none (codes "8 701 123-45-67") ≡ ok (codes "+77011234567")
unfolding normalize_e164
local = refl

masked : mask_e164 (codes "+77011234567") ≡ codes "+7701***4567"
unfolding mask_e164
masked = refl

scrubbed : scrub_text ascii (codes "call 87011234567 now") ≡ codes "call 87011***4567 now"
unfolding scrub_text
scrubbed = refl

normalize_e164-IsE164_example : IsE164 ascii (codes "+77011234567")
normalize_e164-IsE164_example =
    normalize_e164-IsE164 ascii (codes "8 701 123-45-67") (codes "+77011234567") local

mask_e164_hides_example :
    mask_e164 (codes "+7701" ++ (codes "123" ++ codes "4567"))
    ≡ codes "+7701" ++ codes "***" ++ codes "4567"
mask_e164_hides_example = mask_e164_hides (codes "+7701") (codes "123") (codes "4567") refl refl

-- An active session that expires at 500.
abbrev brief : Session
brief = record {
  id = 7;
  number_id = 1;
  ext_code = none;
  status = active;
  external_id = none;
  max_calls = none;
  trace_id = none;
  created_at = 100;
  expires_at = 500;
  closed_at = none;
}

abbrev brief_db : Db
brief_db = record empty_db { sessions = brief ∷ [] }

-- A call from the first day, and one of the fiftieth.
abbrev called_db : Db
called_db = record brief_db {
  calls = record {
    rows = lost_call ∷ record lost_call { id = 2; started_at = 50 * day } ∷ [];
    next_id = 3;
  };
}

purge_old_records_keeps_example :
    All
      (λ c. 100 * day ≤ c.started_at + 90 * day)
      (purge_old_records plain_settings (100 * day) called_db).0.calls.rows
    × All
        (λ c.
          100 * day ≤ c.started_at + 90 * day
          → (x : Call) × In x (purge_old_records plain_settings (100 * day) called_db).0.calls.rows
            × (x.id ≡ c.id)
            × (x.started_at ≡ c.started_at))
        called_db.calls.rows
    × All
        (λ s. In s (purge_old_records plain_settings (100 * day) called_db).0.sessions)
        (filter (λ s. is_active s.status) called_db.sessions)
purge_old_records_keeps_example = purge_old_records_keeps plain_settings (100 * day) called_db

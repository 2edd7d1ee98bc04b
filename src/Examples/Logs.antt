-- ===== src/Examples/Logs.antt =====
-- Trials of what the log hides.
use number_masking_service.Prelude.{
  ◌≡◌, ◌≤◌, refl, none, some, [], ◌∷◌, codes, text_eq, here, there, arith,
}
use number_masking_service.Unicode.{ascii}
use number_masking_service.Phone.{scrub_text}
use number_masking_service.Phone.Runs.{longest}
use number_masking_service.Phone.Scrub.{scrub_text-hides}
use number_masking_service.Logging.{text, EventDict, is_safe, process}
use number_masking_service.Logging.Hidden.{process-hides}

abbrev event : EventDict
event =
    (codes "event", text (codes "failed")) ∷ (codes "error", text (codes "no +77011234567")) ∷ []

abbrev shown : EventDict
shown =
    (codes "event", text (codes "failed"))
    ∷ (codes "error", text (codes "no +7701***4567"))
    ∷ (codes "trace_id", text (codes "t1"))
    ∷ []

logged : process ascii (some (codes "t1")) none event ≡ shown
unfolding process scrub_text is_safe text_eq
logged = refl

scrub_text-hides_example : longest ascii (scrub_text ascii (codes "call 87011234567 now")) ≤ 6
scrub_text-hides_example = scrub_text-hides ascii (codes "call 87011234567 now") (omega arith)

process-hides_example : longest ascii (codes "no +7701***4567") ≤ 10
unfolding process scrub_text is_safe text_eq
process-hides_example =
    process-hides ascii (some (codes "t1")) none event (codes "error") (codes "no +7701***4567")
      (there (here refl)) refl

-- ===== src/Examples/Journals.antt =====
-- Trials of the theorems on the call journal, on DTMF collection and on the webhooks.
use number_masking_service.Prelude.{
  ℕ, ltb, if◌then◌else◌, ◌+◌, ◌-◌, min, true, false, ◌≡◌, refl, none, some, List, [], ◌∷◌, ◌++◌,
  codes, text_eq, arith,
}
use number_masking_service.Unicode.{ascii}
use number_masking_service.Journal.{Call, Journal, Op, start, answer, finish, busy, in_progress}
use number_masking_service.Journal.Paging.{Query}
use number_masking_service.Dtmf.{Collector, Arrival, collect, isdigit}
use number_masking_service.Dtmf.Bounds.{IsOutcome, collect-IsOutcome}
use number_masking_service.Dtmf.Typing.{IsPrompt}
use number_masking_service.Webhooks.{Reply, status_code, deliver}
use number_masking_service.Webhooks.Retries.{IsRetried, deliver-IsRetried}
use number_masking_service.Errors.{ok}
use number_masking_service.Crypto.{Primitives, generate_ext_code}
use number_masking_service.Crypto.Pins.{IsBelow}
use number_masking_service.Dtmf.Pins.{pressed, pin_heard}
use number_masking_service.Examples.{plain_settings, toy}

-- A call that was never answered and has ended.
abbrev pub lost_call : Call
lost_call = record {
  id = 1;
  session_id = none;
  direction = none;
  caller_hash = [];
  proxy_e164 = [];
  started_at = 10;
  answered_at = none;
  ended_at = some 20;
  duration_sec = none;
  status = busy;
  hangup_cause = none;
  channel_id = none;
  bridge_id = none;
}

abbrev lost_journal : Journal
lost_journal = record { rows = lost_call ∷ []; next_id = 2 }

abbrev short_talk : List Op
short_talk =
    start 0 [] [] [] none none in_progress
    ∷ answer 1_000_000 1 none
    ∷ finish 4_500_000 1 none none none none
    ∷ []

abbrev any_call : Query
any_call = record { session_id = none; status = none; date_from = none; date_to = none }

abbrev two_digits : Collector
two_digits = record { length = 2; digit_timeout = 5; total_timeout = 20 }

abbrev four : Arrival
four = record { wait = 3; digit = codes "4" }

abbrev nine : Arrival
nine = record { wait = 2; digit = codes "9" }

collect-IsOutcome_example :
    IsOutcome ascii (100 + 20) (collect ascii two_digits 100 (four ∷ nine ∷ []))
collect-IsOutcome_example = collect-IsOutcome ascii two_digits 100 (four ∷ nine ∷ [])

four-IsPrompt : IsPrompt ascii two_digits four
unfolding isdigit text_eq
four-IsPrompt = record { digit = refl; no_hash = refl; no_star = refl; soon = omega arith }

nine-IsPrompt : IsPrompt ascii two_digits nine
unfolding isdigit text_eq
nine-IsPrompt = record { digit = refl; no_hash = refl; no_star = refl; soon = omega arith }

-- The endpoint is broken at first.
abbrev recovering : ℕ → Reply
recovering n = if ltb n 3 then status_code 500 else status_code 200

deliver-IsRetried_example : IsRetried 3 1 0 recovering (deliver plain_settings recovering)
deliver-IsRetried_example = deliver-IsRetried plain_settings recovering

-- The number 7 is drawn.
abbrev sevens : Primitives
sevens = record toy { randbelow = λ draw n. min 7 (n - 1) }

sevens-IsBelow : IsBelow sevens
sevens-IsBelow draw n h = omega arith

drawn : generate_ext_code sevens 0 4 ≡ ok (codes "0007")
unfolding generate_ext_code
drawn = refl

pin_heard_example :
    collect ascii
      (record { length = 4; digit_timeout = 5; total_timeout = 15 })
      100
      (pressed (2 ∷ 1 ∷ 4 ∷ 3 ∷ []) (codes "0007") ++ [])
    ≡ record {
      result = record { digits = codes "0007"; timed_out = false; submitted = true };
      ended = 110;
    }
pin_heard_example =
    pin_heard sevens ascii (record { length = 4; digit_timeout = 5; total_timeout = 15 }) 0 100
      (2 ∷ 1 ∷ 4 ∷ 3 ∷ []) (codes "0007") [] sevens-IsBelow drawn (omega arith) (ground arith)
      (omega arith)

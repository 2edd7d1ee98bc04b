-- ===== src/Lookup.antt =====
-- app/services/routing.py: the sessions that a caller can be routed to on a proxy number, and the
-- choice between them by PIN.
pub mod Live
pub mod Added
pub mod Codes
pub mod Coded
pub mod Chosen
use number_masking_service.Prelude.{
  ℕ, Option, none, some, List, [], ◌∷◌, ◌++◌, Bool, true, false, not, ◌&&◌, Text, text_eq, is_empty,
  any, filter, find, ltb, leb, ◌==◌, if◌then◌else◌,
}
use number_masking_service.Prelude.Sorts.{sort}
use number_masking_service.Errors.{Result, ok, ◌>>=◌}
use number_masking_service.Settings.{Settings}
use number_masking_service.Crypto.{Primitives, decrypt_e164}
use number_masking_service.Journal.{Direction, a2b, b2a}
use number_masking_service.Db.{
  Db, Session, SessionParty, Role, side_a, side_b, is_active, same_role, find_number,
}

pub record Candidate : Type 0 where
  pub session_id : ℕ
  pub ext_code : Option Text
  pub callee_e164 : Text
  pub direction : Direction
  pub max_calls : Option ℕ
  pub expires_at : Option ℕ
  pub trace_id : Option Text

-- `if candidate.ext_code`: neither None nor the empty text.
unfoldable pub has_code : Candidate → Bool
has_code c = elim c.ext_code [ none ↦ false | some t ↦ not (is_empty t) ]

unfoldable pub code_matches : Text → Candidate → Bool
unfolding has_code
code_matches code c = has_code c && (elim c.ext_code [ none ↦ false | some t ↦ text_eq t code ])

unfoldable pub select_by_code : List Candidate → Text → Option Candidate
unfolding code_matches
select_by_code candidates code = find (code_matches code) candidates

-- A row of the join: a session with the role of the caller in it.
pub record Row : Type 0 where
  pub session : Session
  pub role : Role

-- `Number.e164 == proxy` for the number of the session.
unfoldable pub on_proxy : Db → Text → Session → Bool
on_proxy db proxy s = elim (find_number db s.number_id) [
  | none ↦ false
  | some n ↦ text_eq n.e164 proxy
]

-- The party row is the caller's, in the session.
unfoldable pub is_caller : Text → Session → SessionParty → Bool
is_caller caller_hash s p = p.session_id == s.id && text_eq p.party_hash caller_hash

unfoldable pub rows_of : Session → List SessionParty → List Row
rows_of s [] = []
rows_of s (p ∷ ps) = record { session = s; role = p.role } ∷ rows_of s ps

-- The rows that one session gives to the join of `_load_candidates`.
unfoldable pub session_rows : Db → Text → Text → ℕ → Session → List Row
unfolding rows_of on_proxy is_caller
session_rows db proxy caller_hash now s =
    if on_proxy db proxy s && (is_active s.status && ltb now s.expires_at)
    then rows_of s (filter (λ p. is_caller caller_hash s p && p.is_active) db.parties)
    else []

unfoldable pub join_rows : (Session → List Row) → List Session → List Row
join_rows f [] = []
join_rows f (s ∷ ss) = f s ++ join_rows f ss

-- `ORDER BY sessions.created_at DESC`.
unfoldable pub newest : Row → Row → Bool
newest a b = leb b.session.created_at a.session.created_at

unfoldable pub live_rows : Db → Text → Text → ℕ → List Row
unfolding session_rows join_rows newest
live_rows db proxy caller_hash now =
    sort newest (join_rows (session_rows db proxy caller_hash now) db.sessions)

unfoldable pub parties_of : Db → ℕ → List SessionParty
parties_of db i = filter (λ p. p.session_id == i) db.parties

unfoldable pub other_party : Db → Row → Option SessionParty
unfolding parties_of
other_party db row = find (λ p. not (same_role p.role row.role)) (parties_of db row.session.id)

abbrev pub direction_of : Role → Direction
direction_of side_a = a2b
direction_of side_b = b2a

unfoldable pub candidate_of : Row → Text → Candidate
candidate_of row callee = record {
  session_id = row.session.id;
  ext_code = row.session.ext_code;
  callee_e164 = callee;
  direction = direction_of row.role;
  max_calls = row.session.max_calls;
  expires_at = some row.session.expires_at;
  trace_id = row.session.trace_id;
}

unfoldable pub candidates_of : Primitives → Text → Db → List Row → Result (List Candidate)
unfolding other_party candidate_of
candidates_of c key db [] = ok []
candidates_of c key db (row ∷ rows) =
    let rest = candidates_of c key db rows in
    elim (other_party db row) [
      | none ↦ rest
      | some p ↦ do
        callee ← decrypt_e164 c p.party_e164_enc key
        others ← rest
        ok (candidate_of row callee ∷ others)
    ]

-- `_load_candidates`.
unfoldable pub load_candidates :
    Primitives → Settings → Db → Text → Text → ℕ → Result (List Candidate)
unfolding live_rows candidates_of
load_candidates c settings db proxy caller_hash now =
    candidates_of c settings.encryption_key db (live_rows db proxy caller_hash now)

-- `_had_session`.
unfoldable pub had_session : Db → Text → Text → Bool
unfolding on_proxy is_caller
had_session db proxy caller_hash =
    any db.sessions λ s. on_proxy db proxy s && any db.parties (is_caller caller_hash s)

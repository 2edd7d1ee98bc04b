-- ===== src/Db.antt =====
-- app/db/models.py, app/db/triggers.py and migrations/versions/0001_initial_schema.py: the tables,
-- the trigger that keeps `session_parties` in step with `sessions`, and the two partial unique
-- indexes. A table is the list of its rows, in the order in which they were written.
pub mod Mirror
pub mod Finding
use number_masking_service.Prelude.{
  ℕ, ◌≡◌, refl, Option, none, some, List, [], ◌∷◌, ◌++◌, Bool, true, false, not, ◌&&◌, ◌||◌, Text,
  text_eq, is_some, find, any, count, ◌==◌, if◌then◌else◌, map,
}
use number_masking_service.Errors.{Result, ok, err, Error, integrity_error}
use number_masking_service.Journal.{Journal}

pub data NumberStatus : Type 0 where
  enabled disabled : NumberStatus

pub data SessionStatus : Type 0 where
  active expired closed : SessionStatus

pub data Role : Type 0 where
  side_a side_b : Role

pub record Number : Type 0 where
  pub id : ℕ
  pub e164 : Text
  pub status : NumberStatus
  pub provider : Option Text
  pub released_at : Option ℕ
  pub created_at : ℕ

pub record Session : Type 0 where
  pub id : ℕ
  pub number_id : ℕ
  pub ext_code : Option Text
  pub status : SessionStatus
  pub external_id : Option Text
  pub max_calls : Option ℕ
  pub trace_id : Option Text
  pub created_at : ℕ
  pub expires_at : ℕ
  pub closed_at : Option ℕ

pub record SessionParty : Type 0 where
  pub session_id : ℕ
  pub role : Role
  pub number_id : ℕ
  pub party_e164_enc : Text
  pub party_hash : Text
  pub is_active : Bool
  pub has_ext_code : Bool
  pub released_at : Option ℕ

pub record Db : Type 0 where
  pub numbers : List Number
  pub next_number_id : ℕ
  pub sessions : List Session
  pub parties : List SessionParty
  pub calls : Journal

abbrev pub is_active : SessionStatus → Bool
is_active active = true
is_active expired = false
is_active closed = false

abbrev pub is_enabled : NumberStatus → Bool
is_enabled enabled = true
is_enabled disabled = false

abbrev pub same_role : Role → Role → Bool
same_role side_a side_a = true
same_role side_a side_b = false
same_role side_b side_a = false
same_role side_b side_b = true

abbrev same_status : SessionStatus → SessionStatus → Bool
same_status active active = true
same_status expired expired = true
same_status closed closed = true
same_status _ _ = false

-- `IS NOT DISTINCT FROM`.
abbrev same_code : Option Text → Option Text → Bool
same_code none none = true
same_code none (some _) = false
same_code (some _) none = false
same_code (some s) (some t) = text_eq s t

abbrev same_time : Option ℕ → Option ℕ → Bool
same_time none none = true
same_time none (some _) = false
same_time (some _) none = false
same_time (some s) (some t) = s == t

-- What the trigger copies into a party row.
unfoldable pub mirrored : Session → SessionParty → SessionParty
mirrored s p = record p {
  is_active = is_active s.status;
  has_ext_code = is_some s.ext_code;
  released_at = s.closed_at;
}

-- `UPDATE session_parties … WHERE session_id = NEW.id`.
unfoldable pub sync_session_parties : Session → List SessionParty → List SessionParty
unfolding mirrored
sync_session_parties s [] = []
sync_session_parties s (p ∷ ps) =
    let rest = sync_session_parties s ps in
    if p.session_id == s.id then mirrored s p ∷ rest else p ∷ rest

-- The `WHEN` clause of the trigger.
unfoldable pub fires : Session → Session → Bool
fires old new =
    not (same_status old.status new.status)
    || (not (same_code old.ext_code new.ext_code) || not (same_time old.closed_at new.closed_at))

unfoldable pub trigger : Session → Session → List SessionParty → List SessionParty
unfolding fires sync_session_parties
trigger old new ps = if fires old new then sync_session_parties new ps else ps

unfoldable pub replace_session : Session → List Session → List Session
replace_session s [] = []
replace_session s (x ∷ xs) =
    let rest = replace_session s xs in if x.id == s.id then s ∷ rest else x ∷ rest

unfoldable pub find_session : Db → ℕ → Option Session
find_session db i = find (λ s. s.id == i) db.sessions

unfoldable pub find_number : Db → ℕ → Option Number
find_number db i = find (λ n. n.id == i) db.numbers

-- `UPDATE sessions SET … WHERE id = i`, with the trigger.
unfoldable pub update_session : (Session → Session) → ℕ → Db → Db
unfolding trigger replace_session find_session
update_session f i db = elim (find_session db i) [
  | none ↦ db
  | some s ↦ record db {
    sessions = replace_session (f s) db.sessions;
    parties = trigger s (f s) db.parties;
  }
]

-- Two rows that the index `uniq_active_ext_code_per_number` refuses.
unfoldable pub codes_clash : Session → Session → Bool
codes_clash s t =
    is_active s.status
    && (is_active t.status
        && (s.number_id == t.number_id && (is_some s.ext_code && same_code s.ext_code t.ext_code)))

-- Two rows that the index `uniq_active_party_per_number` refuses.
unfoldable pub parties_clash : SessionParty → SessionParty → Bool
parties_clash p q =
    (p.is_active && not p.has_ext_code)
    && ((q.is_active && not q.has_ext_code)
        && (p.number_id == q.number_id && text_eq p.party_hash q.party_hash))

unfoldable pub distinct {ℓ} : {A : Type ℓ} → (A → A → Bool) → List A → Bool
distinct clash [] = true
distinct clash (x ∷ xs) = not (any xs (clash x)) && distinct clash xs

-- A statement that would break a unique index is refused.
unfoldable pub flush : Db → Result Db
unfolding distinct codes_clash parties_clash
flush db =
    if distinct codes_clash db.sessions && distinct parties_clash db.parties
    then ok db
    else err integrity_error

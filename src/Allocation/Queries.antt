-- ===== src/Allocation/Queries.antt =====
-- app/services/allocation.py: the queries, one definition for each condition of the SQL texts.
use number_masking_service.Prelude.{
  ℕ, ◌+◌, ◌*◌, Option, none, some, List, [], ◌∷◌, Bool, true, false, not, ◌&&◌, ◌||◌, Text, text_eq,
  is_some, any, count, filter, take, ltb, leb, ◌==◌, if◌then◌else◌,
}
use number_masking_service.Prelude.Sorts.{sort}
use number_masking_service.Settings.{Settings, CooldownScope, hour}
use number_masking_service.Db.{
  Db, Number, Session, SessionParty, is_active, is_enabled, find_number,
}

-- `party_hash = ANY(:hashes)`, and `code in used`.
unfoldable pub mem : Text → List Text → Bool
mem t ts = any ts (text_eq t)

unfoldable pub is_number_scope : CooldownScope → Bool
is_number_scope CooldownScope.number = true
is_number_scope CooldownScope.party = false

unfoldable pub cooldown : Settings → ℕ
cooldown settings = settings.number_cooldown_hours * hour

unfoldable pub rested : ℕ → ℕ → Option ℕ → Bool
rested hours now none = true
rested hours now (some r) = ltb (r + hours) now

unfoldable pub recent : ℕ → ℕ → Option ℕ → Bool
recent hours now none = false
recent hours now (some r) = ltb now (r + hours)

-- A party of the new session left this number within the cooldown.
unfoldable pub cooling : Settings → List Text → ℕ → Number → SessionParty → Bool
unfolding recent cooldown mem
cooling settings hashes now n sp =
    sp.number_id == n.id
    && (mem sp.party_hash hashes
        && (not sp.is_active && recent (cooldown settings) now sp.released_at))

-- `_CANDIDATE_PREDICATE`.
unfoldable pub is_candidate : Settings → List Text → ℕ → Db → Number → Bool
unfolding is_number_scope rested cooldown cooling
is_candidate settings hashes now db n =
    is_enabled n.status
    && ((not (is_number_scope settings.cooldown_scope)
          || rested (cooldown settings) now n.released_at)
        && not (any db.parties (cooling settings hashes now n)))

unfoldable pub holds : List Text → ℕ → SessionParty → Bool
unfolding mem
holds hashes number_id sp = sp.number_id == number_id && (mem sp.party_hash hashes && sp.is_active)

-- `ORDER BY n.released_at NULLS FIRST, n.id`.
unfoldable pub longest_rest : Number → Number → Bool
longest_rest a b = earlier a.released_at b.released_at
  where
    earlier : Option ℕ → Option ℕ → Bool
    earlier none none = leb a.id b.id
    earlier none (some s) = true
    earlier (some r) none = false
    earlier (some r) (some s) = ltb r s || (r == s && leb a.id b.id)

unfoldable pub first {ℓ} : {A : Type ℓ} → List A → Option A
first [] = none
first (a ∷ rest) = some a

unfoldable pub is_free : Settings → List Text → ℕ → (ℕ → Bool) → Db → Number → Bool
is_free settings hashes now locked db n =
    is_candidate settings hashes now db n
    && (not (any db.parties (holds hashes n.id)) && not (locked n.id))

-- `_EXCLUSIVE_SQL`.
unfoldable pub exclusive_number : Settings → List Text → ℕ → (ℕ → Bool) → Db → Option Number
unfolding first is_free longest_rest
exclusive_number settings hashes now locked db =
    first (sort longest_rest (filter (is_free settings hashes now locked db) db.numbers))

unfoldable pub active_on : ℕ → Session → Bool
active_on number_id s = s.number_id == number_id && is_active s.status

-- A number with its `active_count`.
pub record Counted : Type 0 where
  pub number : Number
  pub active_count : ℕ

unfoldable pub counted : Db → List Number → List Counted
unfolding active_on
counted db [] = []
counted db (n ∷ ns) =
    record { number = n; active_count = count (active_on n.id) db.sessions } ∷ counted db ns

unfoldable pub least_used : Counted → Counted → Bool
least_used a b =
    ltb a.active_count b.active_count
    || (a.active_count == b.active_count && leb a.number.id b.number.id)

abbrev pub max_candidates : ℕ
max_candidates = 20

-- `_EXTENSION_CANDIDATES_SQL`.
unfoldable pub extension_candidates : Settings → List Text → ℕ → Db → List Counted
unfolding counted least_used
extension_candidates settings hashes now db =
    take max_candidates
      (sort least_used (counted db (filter (is_candidate settings hashes now db) db.numbers)))

-- `_LOCK_NUMBER_SQL`.
unfoldable pub lock_number : (ℕ → Bool) → Db → ℕ → Option Number
lock_number locked db i = if locked i then none else find_number db i

unfoldable pub some_codes : List Session → List Text
some_codes [] = []
some_codes (s ∷ ss) = code_of s.ext_code (some_codes ss)
  where
    code_of : Option Text → List Text → List Text
    code_of none rest = rest
    code_of (some t) rest = t ∷ rest

-- `_ACTIVE_EXT_CODES_SQL`.
unfoldable pub active_ext_codes : Db → ℕ → List Text
unfolding some_codes active_on
active_ext_codes db i = some_codes (filter (active_on i) db.sessions)

unfoldable pub party_of : List Text → Session → SessionParty → Bool
unfolding mem
party_of hashes s sp = sp.session_id == s.id && mem sp.party_hash hashes

unfoldable pub lacks_code : Db → ℕ → List Text → Session → Bool
unfolding active_on party_of
lacks_code db i hashes s =
    active_on i s && (not (is_some s.ext_code) && any db.parties (party_of hashes s))

-- `_SESSIONS_TO_PROMOTE_SQL`.
unfoldable pub sessions_to_promote : Db → ℕ → List Text → List Session
unfolding lacks_code
sessions_to_promote db i hashes = filter (lacks_code db i hashes) db.sessions

-- ===== src/Allocation.antt =====
-- app/services/allocation.py: choosing the proxy number of a new session. `now` is the time of the
-- transaction, `locked` says which number rows another transaction holds (`SKIP LOCKED`), and
-- `draw` counts the random numbers drawn. SQL's `r < now() - cooldown` is `r + cooldown < now`.
mod Queries
pub mod Codes
pub mod Kept
pub mod Exclusive
pub mod Extension
pub mod Promotion
use number_masking_service.Prelude.{
  ℕ, zero, suc, ◌+◌, ◌*◌, Option, none, some, List, [], ◌∷◌, ◌++◌, Bool, true, false, not, ◌&&◌,
  ◌||◌, Text, text_eq, is_some, any, count, filter, take, ltb, leb, ◌==◌, if◌then◌else◌,
}
use number_masking_service.Prelude.Sorts.{sort}
use number_masking_service.Errors.{Result, ok, err, no_number_available_error, ◌>>=◌}
use number_masking_service.Settings.{
  Settings, CooldownScope, ExtCodeMode, auto, always, never, hour,
}
use number_masking_service.Crypto.{Primitives, generate_ext_code}
use number_masking_service.Db.{
  Db, Number, Session, SessionParty, is_active, is_enabled, find_number, find_session,
  update_session, flush,
}
pub use Queries.{Counted, max_candidates}
unfoldable pub use Queries.{
  mem, is_number_scope, cooldown, rested, recent, cooling, is_candidate, holds, longest_rest, first,
  is_free, exclusive_number, active_on, counted, least_used, extension_candidates, lock_number,
  some_codes, active_ext_codes, party_of, lacks_code, sessions_to_promote,
}

pub data Mode : Type 0 where
  exclusive extension : Mode

pub record Allocation : Type 0 where
  pub number_id : ℕ
  pub proxy_e164 : Text
  pub ext_code : Option Text
  pub mode : Mode
  pub promoted_session_ids : List ℕ

-- An allocation with the tables and the random source that it leaves.
pub record Allocated : Type 0 where
  pub allocation : Allocation
  pub db : Db
  pub draw : ℕ

abbrev pub generation_attempts : ℕ
generation_attempts = 20

-- `_fresh_code`, with the attempts left.
unfoldable pub fresh_code : Primitives → List Text → ℕ → ℕ → ℕ → Result (Option Text × ℕ)
fresh_code c used width zero draw = ok (none, draw)
fresh_code c used width (suc attempts) draw = do
  code ← generate_ext_code c draw width
  let again = fresh_code c used width attempts (draw + 1)
  if mem code used then again else ok (some code, draw + 1)

unfoldable pub assign_code : Text → Session → Session
assign_code code s = record s { ext_code = some code }

-- What `_promote_conflicting_sessions` leaves: the identifiers of the sessions, or `none` if the
-- PINs ran out, and the tables with the updates that were made until then.
pub record Promoted : Type 0 where
  pub ids : Option (List ℕ)
  pub db : Db
  pub draw : ℕ

unfoldable pub promote_rows :
    Primitives → ℕ → List Session → List Text → List ℕ → Db → ℕ → Result Promoted
unfolding assign_code
promote_rows c width [] used done db draw = ok (record { ids = some done; db = db; draw = draw })
promote_rows c width (s ∷ rest) used done db draw = do
  (fresh, draw') ← fresh_code c used width generation_attempts draw
  elim fresh [
    | none ↦ ok (record { ids = none; db = db; draw = draw' })
    | some code ↦ do
      db' ← flush (update_session (assign_code code) s.id db)
      promote_rows c width rest (code ∷ used) (done ++ s.id ∷ []) db' draw'
  ]

-- `_promote_conflicting_sessions`.
unfoldable pub promote_conflicting_sessions :
    Primitives → ℕ → ℕ → List Text → List Text → Db → ℕ → Result Promoted
unfolding promote_rows
promote_conflicting_sessions c width i hashes used db draw =
    promote_rows c width (sessions_to_promote db i hashes) used [] db draw

unfoldable pub grant : Number → Text → Promoted → List ℕ → Allocated
grant row code p ids = record {
  allocation = record {
    number_id = row.id;
    proxy_e164 = row.e164;
    ext_code = some code;
    mode = extension;
    promoted_session_ids = ids;
  };
  db = p.db;
  draw = p.draw;
}

-- `if promoted is None: continue`: the updates that were made stay in the transaction.
unfoldable pub grant_or_next :
    Number → Text → (Db → ℕ → Result Allocated) → Promoted → Result Allocated
unfolding grant
grant_or_next row code next p = elim p.ids [
  | none ↦ next p.db p.draw
  | some ids ↦ ok (grant row code p ids)
]

-- A number that serves both parties alone.
unfoldable pub take_free : Number → Db → ℕ → Allocated
take_free n db draw = record {
  allocation = record {
    number_id = n.id;
    proxy_e164 = n.e164;
    ext_code = none;
    mode = exclusive;
    promoted_session_ids = [];
  };
  db = db;
  draw = draw;
}

module _ (c : Primitives) (settings : Settings) (hashes : List Text) (locked : ℕ → Bool) where
  -- The row of a candidate that was locked; `next` goes on with the other candidates, from the
  -- tables and the random source that this one leaves.
  unfoldable pub share_row : Number → Db → ℕ → (Db → ℕ → Result Allocated) → Result Allocated
  unfolding grant_or_next
  share_row row db draw next = do
    let used = active_ext_codes db row.id
    (fresh, draw') ← fresh_code c used settings.ext_code_length generation_attempts draw
    elim fresh [
      | none ↦ next db draw'
      | some code ↦ do
        promoted ←
            promote_conflicting_sessions c settings.ext_code_length row.id hashes (code ∷ used) db
              draw'
        grant_or_next row code next promoted
    ]

  -- The body of the loop of `_allocate_with_extension_code`.
  unfoldable pub share_number : Counted → Db → ℕ → (Db → ℕ → Result Allocated) → Result Allocated
  unfolding share_row
  share_number candidate db draw next =
      if leb settings.ext_code_max_per_number candidate.active_count
      then next db draw
      else elim (lock_number locked db candidate.number.id) [
        | none ↦ next db draw
        | some row ↦ share_row row db draw next
      ]

  unfoldable pub share_first : List Counted → Db → ℕ → Result Allocated
  unfolding share_number
  share_first [] db draw = err no_number_available_error
  share_first (candidate ∷ rest) db draw = share_number candidate db draw (share_first rest)

  -- `_allocate_with_extension_code`.
  unfoldable pub allocate_with_extension_code : ℕ → Db → ℕ → Result Allocated
  unfolding share_first
  allocate_with_extension_code now db draw =
      share_first (extension_candidates settings hashes now db) db draw

  tries_exclusive : ExtCodeMode → Bool
  tries_exclusive auto = true
  tries_exclusive always = false
  tries_exclusive never = true

  may_share : ExtCodeMode → Bool → Bool
  may_share auto allowed = allowed
  may_share always allowed = allowed
  may_share never allowed = false

  share_or_fail : ℕ → Bool → Db → ℕ → Result Allocated
  unfolding may_share
  share_or_fail now allow_extension_code db draw =
      if may_share settings.ext_code_mode allow_extension_code
      then allocate_with_extension_code now db draw
      else err no_number_available_error

  -- `allocate_number`.
  unfoldable pub allocate_number : ℕ → Bool → Db → ℕ → Result Allocated
  unfolding tries_exclusive share_or_fail take_free
  allocate_number now allow_extension_code db draw =
      let row =
        if tries_exclusive settings.ext_code_mode
        then exclusive_number settings hashes now locked db
        else none in
      elim row [
        | none ↦ share_or_fail now allow_extension_code db draw
        | some n ↦ ok (take_free n db draw)
      ]

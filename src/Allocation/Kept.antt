-- ===== src/Allocation/Kept.antt =====
-- app/services/allocation.py: what the search for a shared number leaves alone.
use number_masking_service.Prelude.{
  ℕ, ◌≡◌, ◌∙◌, refl, subst, some, List, [], ◌∷◌, ◌++◌, arith, Bool, any, Text, Option-cases, inl,
  inr,
}
use number_masking_service.Errors.{ok, ok-injective, >>=-eq-ok}
use number_masking_service.Crypto.{Primitives}
use number_masking_service.Db.{
  Db, Number, Session, SessionParty, update_session, flush, find_number,
}
use number_masking_service.Db.Mirror.{SameKeys, any-update_session, flush-eq-ok}
use number_masking_service.Allocation.{
  Allocated, Promoted, assign_code, promote_rows, promote_conflicting_sessions, sessions_to_promote,
  fresh_code, generation_attempts,
}

-- The pool is the same, and so is every key of a party row.
pub record Kept (db db' : Db) : Type 0 where
  pub numbers : db'.numbers ≡ db.numbers
  pub keys : (p : SessionParty → Bool) → SameKeys p → any db'.parties p ≡ any db.parties p

pub Kept-refl : (db : Db) → Kept db db
Kept-refl db = record { numbers = refl; keys = λ p same. refl }

pub Kept-trans : (a b d : Db) → Kept a b → Kept b d → Kept a d
Kept-trans a b d h k = record {
  numbers = k.numbers ∙ h.numbers;
  keys = λ p same. k.keys p same ∙ h.keys p same;
}

numbers-update_session :
    (f : Session → Session) (i : ℕ) (db : Db) → (update_session f i db).numbers ≡ db.numbers
unfolding update_session
numbers-update_session f i db = ground arith

update_session-Kept : (f : Session → Session) (i : ℕ) (db : Db) → Kept db (update_session f i db)
update_session-Kept f i db = record {
  numbers = numbers-update_session f i db;
  keys = λ p same. any-update_session p same f i db;
}

promote_rows-Kept :
    (c : Primitives) (width : ℕ) (rows : List Session) (used : List Text) (done : List ℕ) (db : Db)
    (draw : ℕ) (p : Promoted)
    → promote_rows c width rows used done db draw ≡ ok p
    → Kept db p.db
unfolding promote_rows
promote_rows-Kept c width [] used done db draw p e =
    subst (λ (q : Promoted). Kept db q.db) (ok-injective e) (Kept-refl db)
promote_rows-Kept c width (s ∷ rest) used done db draw p e =
    let (got, _, e₁) = >>=-eq-ok (fresh_code c used width generation_attempts draw) _ e in
    elim (Option-cases got.0) [
      | inl n ↦ subst (λ (q : Promoted). Kept db q.db) (ok-injective (rw n at e₁)) (Kept-refl db)
      | inr (code, f) ↦
          let after = update_session (assign_code code) s.id db in
          let (db', g, e₂) = >>=-eq-ok (flush after) _ (rw f at e₁) in
          let first = update_session-Kept (assign_code code) s.id db in
          Kept-trans db db' p.db (subst (Kept db) (flush-eq-ok after db' g) first)
            (promote_rows-Kept c width rest (code ∷ used) (done ++ s.id ∷ []) db' got.1 p e₂)
    ]

-- A promotion touches neither the pool nor the keys of the party rows.
pub promotion-Kept :
    (c : Primitives) (width i : ℕ) (hashes used : List Text) (db : Db) (draw : ℕ) (p : Promoted)
    → promote_conflicting_sessions c width i hashes used db draw ≡ ok p
    → Kept db p.db
unfolding promote_conflicting_sessions
promotion-Kept c width i hashes used db draw p e =
    promote_rows-Kept c width (sessions_to_promote db i hashes) used [] db draw p e

-- The number that was given is a row of the pool, which the search left alone.
pub record IsGiven (db : Db) (got : Allocated) : Type 0 where
  pub number : Number
  pub found : find_number db got.allocation.number_id ≡ some number
  pub named : got.allocation.proxy_e164 ≡ number.e164
  pub kept : Kept db got.db

-- The search went on from tables that it had left alone.
pub later-IsGiven : (db db' : Db) (got : Allocated) → Kept db db' → IsGiven db' got → IsGiven db got
unfolding find_number
later-IsGiven db db' got k g = record {
  number = g.number;
  found = rw (k.numbers) at g.found;
  named = g.named;
  kept = Kept-trans db db' got.db k g.kept;
}

-- ===== src/Allocation/Exclusive.antt =====
-- app/services/allocation.py: the number that `_EXCLUSIVE_SQL` picks.
use number_masking_service.Prelude.{
  ℕ, ◌≡◌, subst, some, List, [], ◌∷◌, arith, Bool, true, false, Text, All, All-In, All-zip,
  All-filter, All-filter_of, any-false, filter, In,
}
use number_masking_service.Prelude.Sorts.{sort, All-sort}
use number_masking_service.Settings.{Settings}
use number_masking_service.Db.{Db, Number}
use number_masking_service.Allocation.{
  exclusive_number, is_candidate, is_free, longest_rest, first, holds,
}

-- A number of the pool that is allowed for the pair, not locked, and on which neither party holds an
-- active session.
pub record IsFree (settings : Settings) (hashes : List Text) (now : ℕ) (locked : ℕ → Bool) (db : Db)
    (n : Number) : Type 0 where
  pub pooled : In n db.numbers
  pub candidate : is_candidate settings hashes now db n ≡ true
  pub unlocked : locked n.id ≡ false
  pub unheld : All (λ p. holds hashes n.id p ≡ false) db.parties

All-first {ℓ κ} :
    {A : Type ℓ} (P : A → Type κ) (xs : List A) {x : A} → All P xs → first xs ≡ some x → P x
unfolding first
All-first P [] h e = absurd (cc)
All-first P (y ∷ ys) h e = subst P (cc) h.0

module _ (settings : Settings) (hashes : List Text) (now : ℕ) (locked : ℕ → Bool) (db : Db) where
  is_free_lem :
      (n : Number)
      → In n db.numbers × (is_free settings hashes now locked db n ≡ true)
      → IsFree settings hashes now locked db n
  unfolding is_free
  is_free_lem n (m, h) = record {
    pooled = m;
    candidate = ground arith;
    unlocked = ground arith;
    unheld = any-false (holds hashes n.id) db.parties (ground arith);
  }

  pub exclusive_number-IsFree :
      (n : Number)
      → exclusive_number settings hashes now locked db ≡ some n
      → IsFree settings hashes now locked db n
  unfolding exclusive_number
  exclusive_number-IsFree n e =
      let free = is_free settings hashes now locked db in
      let rows = filter free db.numbers in
      is_free_lem n (
        All-first _ (sort longest_rest rows)
          (All-sort longest_rest _ rows (
            All-zip _ _ rows (All-filter_of _ free db.numbers (All-In db.numbers))
              (All-filter free db.numbers)))
          e)

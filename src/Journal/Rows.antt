-- ===== src/Journal/Rows.antt =====
-- app/services/calls.py: reading and writing one row of the journal.
use mathlib.Core.Option
use number_masking_service.Prelude.{
  ℕ, ◌≡◌, ap, Option, none, some, List, [], ◌∷◌, arith, find, find-eq-some, ==→eq, ◌==◌,
  Option-cases, inl, inr, if◌then◌else◌,
}
use number_masking_service.Journal.{Call, Journal, get, replace, store, update}

-- A write to a row that keeps its key.
abbrev pub KeepsId : (Call → Call) → Type 0
KeepsId f = (c : Call) → (f c).id ≡ c.id

abbrev overwrite : Call → Option Call → Option Call
overwrite c none = none
overwrite c (some _) = some c

find-replace :
    (c : Call) (k : ℕ) (xs : List Call)
    → find (λ x. x.id == k) (replace c xs)
      ≡ (if c.id == k then overwrite c (find (λ x. x.id == k) xs) else find (λ x. x.id == k) xs)
unfolding replace
find-replace c k [] = ground arith
find-replace c k (x ∷ xs) = ground (arith, find-replace c k xs)

pub id-get : (j : Journal) (i : ℕ) (c : Call) → get j i ≡ some c → c.id ≡ i
unfolding get
id-get j i c h = ==→eq c.id i (find-eq-some (λ x. x.id == i) j.rows h)

-- After a write to row `i`, row `i` is the new one and every other row is as it was.
pub get-update :
    (f : Call → Call) (j : Journal) (i k : ℕ)
    → KeepsId f
    → get (update f j i) k ≡ (if i == k then Option.map f (get j k) else get j k)
unfolding update store get
get-update f j i k keep = elim (Option-cases (get j i)) [
  | inl e ↦ rw (e, update) (ground (arith, e))
  | inr (c, e) ↦
      rw (e, update, store, get, find-replace (f c) k j.rows)
        (ground (arith, e, keep c, id-get j i c e))
]

replace-replace :
    (c d : Call) (xs : List Call) → c.id ≡ d.id → replace d (replace c xs) ≡ replace d xs
unfolding replace
replace-replace c d [] h = ground arith
replace-replace c d (x ∷ xs) h = ground (arith, replace-replace c d xs)

get-store :
    (j : Journal) (c d : Call) (i : ℕ) → get j i ≡ some c → d.id ≡ i → get (store j d) i ≡ some d
unfolding store get
get-store j c d i e h = rw (find-replace d i j.rows) (ground (arith, e))

update-some :
    (f : Call → Call) (j : Journal) (i : ℕ) (c : Call)
    → get j i ≡ some c
    → update f j i ≡ store j (f c)
unfolding update
update-some f j i c e = rw (e, update)

update-none : (f : Call → Call) (j : Journal) (i : ℕ) → get j i ≡ none → update f j i ≡ j
unfolding update
update-none f j i e = rw (e, update)

store-store : (j : Journal) (c d : Call) → c.id ≡ d.id → store (store j c) d ≡ store j d
unfolding store
store-store j c d h = ap (λ r. record j { rows = r }) (replace-replace c d j.rows h)

-- Two writes to one row are one.
pub update-update :
    (f g : Call → Call) (j : Journal) (i : ℕ)
    → KeepsId f
    → KeepsId g
    → update f (update g j i) i ≡ update (λ c. f (g c)) j i
update-update f g j i kf kg = elim (Option-cases (get j i)) [
  | inl e ↦ cc (update-none g j i e, update-none (λ c. f (g c)) j i e, update-none f j i e)
  | inr (c, e) ↦ cc (
    update-some g j i c e,
    update-some (λ c. f (g c)) j i c e,
    update-some f (store j (g c)) i (g c) (get-store j c (g c) i e (cc (kg c, id-get j i c e))),
    store-store j (g c) (f (g c)) (cc (kf (g c))),
  )
]

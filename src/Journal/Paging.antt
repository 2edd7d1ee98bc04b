-- ===== src/Journal/Paging.antt =====
-- app/services/calls.py: `list_calls` and `find_by_channel`.
use Prim.Native.Nat.add
use mathlib.Core.Logic.{ite}
use number_masking_service.Prelude.{
  ℕ, zero, suc, ◌+◌, ◌≡◌, ◌≤◌, refl, Option, none, some, List, [], ◌∷◌, ◌++◌, arith, Text, ap, All,
  All-take, All-filter, All-drop, Bool, true, false, ◌&&◌, ◌||◌, ltb, leb, ◌==◌, filter, take, drop,
  length, length-take-le, text_eq,
}
use number_masking_service.Prelude.Sorts.{sort, IsSorted, sort-IsSorted, All-sort, Ahead}
use number_masking_service.Journal.{Call, CallStatus, Journal}

pub CallStatus-discrete : Discrete CallStatus
CallStatus-discrete = hlevel

status_eq : CallStatus → CallStatus → Bool
status_eq a b = ite (CallStatus-discrete a b) true false

-- The filters of `list_calls`; a filter that is `None` adds no condition.
pub record Query : Type 0 where
  pub session_id : Option ℕ
  pub status : Option CallStatus
  pub date_from : Option ℕ
  pub date_to : Option ℕ

passes {ℓ} : {A : Type ℓ} → Option A → (A → Bool) → Bool
passes none p = true
passes (some a) p = p a

in_session : Option ℕ → ℕ → Bool
in_session none s = false
in_session (some t) s = t == s

pub matches : Query → Call → Bool
unfolding status_eq passes in_session
matches q c =
    passes q.session_id (in_session c.session_id)
    && (passes q.status (status_eq c.status)
        && (passes q.date_from (λ t. leb t c.started_at)
            && passes q.date_to (λ t. leb c.started_at t)))

-- Newest first: `ORDER BY started_at DESC, id DESC`.
pub newer : Call → Call → Bool
newer a b = ltb b.started_at a.started_at || (a.started_at == b.started_at && leb b.id a.id)

-- The page, and the number of all rows that match.
pub list_calls : Journal → Query → ℕ → ℕ → List Call × ℕ
list_calls j q limit offset = (
  take limit (drop offset (sort newer (filter (matches q) j.rows))),
  length (filter (matches q) j.rows),
)

on_channel : Text → Option Text → Bool
on_channel t none = false
on_channel t (some s) = text_eq s t

first {ℓ} : {A : Type ℓ} → List A → Option A
first [] = none
first (a ∷ rest) = some a

-- The most recent row of a channel: `ORDER BY id DESC LIMIT 1`.
pub find_by_channel : Journal → Text → Option Call
unfolding on_channel first
find_by_channel j channel_id =
    first (sort (λ a b. leb b.id a.id) (filter (λ c. on_channel channel_id c.channel_id) j.rows))

IsSorted-drop {ℓ} :
    {A : Type ℓ} (before : A → A → Bool) (n : ℕ) (xs : List A)
    → IsSorted before xs
    → IsSorted before (drop n xs)
IsSorted-drop before zero xs h = h
IsSorted-drop before (suc n) [] h = tt
IsSorted-drop before (suc n) (x ∷ xs) h = IsSorted-drop before n xs h.1

IsSorted-take {ℓ} :
    {A : Type ℓ} (before : A → A → Bool) (n : ℕ) (xs : List A)
    → IsSorted before xs
    → IsSorted before (take n xs)
IsSorted-take before zero xs h = tt
IsSorted-take before (suc n) [] h = tt
IsSorted-take before (suc n) (x ∷ xs) h =
    (All-take (Ahead before x) n xs h.0, IsSorted-take before n xs h.1)

newer_total : (a b : Call) → newer a b ≡ false → newer b a ≡ true
unfolding newer
newer_total a b h = ground arith

newer_trans : (a b c : Call) → newer a b ≡ true → newer b c ≡ true → newer a c ≡ true
unfolding newer
newer_trans a b c h k = ground arith

-- What a page promises: at most `limit` rows, each of which passes the filters, newest first.
pub record IsPage (q : Query) (limit : ℕ) (page : List Call) : Type 0 where
  pub bounded : length page ≤ limit
  pub filtered : All (λ c. matches q c ≡ true) page
  pub ordered : IsSorted newer page

-- A page of the journal has at most `limit` rows, all of which pass the filters, newest first.
pub list_calls-IsPage :
    (j : Journal) (q : Query) (limit offset : ℕ) → IsPage q limit (list_calls j q limit offset).0
unfolding list_calls
list_calls-IsPage j q limit offset =
    let found = filter (matches q) j.rows in
    let sorted = sort newer found in
    record {
      bounded = length-take-le limit (drop offset sorted);
      filtered =
          All-take _ limit (drop offset sorted)
            (All-drop _ offset sorted (All-sort newer _ found (All-filter (matches q) j.rows)));
      ordered =
          IsSorted-take newer limit (drop offset sorted)
            (IsSorted-drop newer offset sorted (sort-IsSorted newer newer_total newer_trans found));
    }

drop-nil {ℓ} : {A : Type ℓ} (n : ℕ) → drop {A = A} n [] ≡ []
drop-nil zero = refl
drop-nil (suc n) = refl

take-nil {ℓ} : {A : Type ℓ} (n : ℕ) → take {A = A} n [] ≡ []
take-nil zero = refl
take-nil (suc n) = refl

drop-add {ℓ} : {A : Type ℓ} (k m : ℕ) (xs : List A) → drop (k + m) xs ≡ drop m (drop k xs)
drop-add zero m xs = rw add.zero
drop-add (suc k) m [] = rw (add.suc, drop-nil m)
drop-add (suc k) m (x ∷ xs) = rw add.suc (drop-add k m xs)

take-add {ℓ} :
    {A : Type ℓ} (m n : ℕ) (xs : List A) → take m xs ++ take n (drop m xs) ≡ take (m + n) xs
take-add zero n xs = rw add.zero
take-add (suc m) n [] = rw (add.suc, take-nil n)
take-add (suc m) n (x ∷ xs) = rw add.suc (ap (λ t. x ∷ t) (take-add m n xs))

-- Consecutive pages join without a gap or an overlap: a page of `m` rows and the page of `n` rows
-- behind it are the page of `m + n` rows, with the same total.
pub list_calls_tiles :
    (j : Journal) (q : Query) (m n offset : ℕ)
    → ((list_calls j q m offset).0 ++ (list_calls j q n (offset + m)).0
        ≡ (list_calls j q (m + n) offset).0)
      × ((list_calls j q m offset).1 ≡ (list_calls j q n (offset + m)).1)
unfolding list_calls
list_calls_tiles j q m n offset =
    let sorted = sort newer (filter (matches q) j.rows) in
    (rw (drop-add offset m sorted) (take-add m n (drop offset sorted)), refl)

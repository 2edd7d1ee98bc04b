-- ===== src/Examples/Reaching.antt =====
-- Trials of routing after a session ended, with a lookup cache that computes.
use number_masking_service.Prelude.{
  ℕ, ◌⊎◌, ◌≡◌, ◌≢◌, ◌++◌, sym, ap, refl, none, some, List, [], ◌∷◌, Bool, true, false, not, ◌==◌,
  ◌&&◌, Text, text_eq, text_eq_iff, text_eq_refl, codes, any, map, filter, arith, All, In, here,
  there, In-any, In-filter, subst, inl, inr, Bool-cases, if◌then◌else◌,
}
use number_masking_service.Errors.{ok}
use number_masking_service.Stasis.{dict_get}
use number_masking_service.Cache.{Redis, lookup_key, invalidate_number}
use number_masking_service.Phone.{normalize_e164}
use number_masking_service.Prelude.Sorts.{sort}
use number_masking_service.Unicode.{ascii}
use number_masking_service.Db.{
  side_a, side_b, closed, find_session, find_number, update_session, flush,
}
use number_masking_service.Routing.Verdict.{SpeaksOf}
use number_masking_service.Sessions.{World, CreatedSession, create_session}
use number_masking_service.Sessions.Connected.{Reaches, created_session_connects}
use number_masking_service.Examples.Creating.{
  born, born_db, created, apart, empty-IsKeyed, normal_alice, normal_bob,
}
use number_masking_service.Lifecycle.{close_session, close_in_db, mark_number_released, number_e164}
use number_masking_service.Lifecycle.Unreachable.{Released, closed_session_unreachable}
use number_masking_service.Settings.{Settings, webhooks_enabled}
use number_masking_service.Lifecycle.{expire_due_sessions}
use number_masking_service.Background.{expiry_round}
use number_masking_service.Background.Rounds.{IsOverdue, expiry_round-IsOverdue}
use number_masking_service.Examples.{
  toy, toy-IsSound, bob, alone, empty_db, request, surroundings, alice, nonce, plain_settings,
}
use number_masking_service.Examples.Closing.{open_session, open_db, over_session, over_db, found}
use number_masking_service.Cache.Dropping.{IsLawful, IsUp, IsStoring}
use number_masking_service.Routing.Entries.{Visit, verdicts, IsNaming}

-- A key against a pattern whose only special character is the star.
unfoldable pub glob : Text → Text → Bool
glob [] [] = true
glob [] (d ∷ key) = false
glob (c ∷ pattern) [] = c == 42
glob (c ∷ pattern) (d ∷ key) =
    let rest = glob pattern key in if c == 42 then true else (c == d) && rest

abbrev pub keys_of : List (Text × Text) → List Text
keys_of s = map (λ (e : Text × Text). e.0) s

abbrev pub without : List Text → List (Text × Text) → List (Text × Text)
without keys s = filter (λ (e : Text × Text). not (any keys (text_eq e.0))) s

abbrev pub shelf : Redis
shelf = record {
  Store = List (Text × Text);
  get = λ s now key. some (dict_get key s);
  set = λ s now key value ttl. some ((key, value) ∷ s);
  delete = λ s keys. some (without keys s);
  scan = λ s now pattern. some (filter (glob pattern) (keys_of s));
  hit = λ s now key seconds. some (1, s);
  dumps = λ p. codes "{}";
  loads = λ t. none;
}

dict_get-without :
    (keys : List Text) (key : Text) (s : List (Text × Text))
    → dict_get key (without keys s) ≡ (if any keys (text_eq key) then none else dict_get key s)
dict_get-without keys key [] = ground arith
dict_get-without keys key ((k, v) ∷ s) = elim (Bool-cases (text_eq k key)) [
  | inl same ↦ ground (
    arith,
    same,
    ap (λ z. any keys (text_eq z)) (text_eq_iff k key same),
    dict_get-without keys key s,
  )
  | inr other ↦ ground (arith, other, dict_get-without keys key s)
]

glob-prefix : (prefix rest : Text) → glob (prefix ++ codes "*") (prefix ++ rest) ≡ true
unfolding glob
glob-prefix [] [] = refl
glob-prefix [] (c ∷ rest) = refl
glob-prefix (c ∷ prefix) rest = ground (arith, glob-prefix prefix rest)

dict_get-In :
    (key raw : Text) (s : List (Text × Text)) → dict_get key s ≡ some raw → In key (keys_of s)
dict_get-In key raw [] h = cc
dict_get-In key raw ((k, v) ∷ s) h = elim (Bool-cases (text_eq k key)) [
  | inl same ↦ here (sym (text_eq_iff k key same))
  | inr other ↦ there (dict_get-In key raw s (ground (arith, other)))
]

kept :
    (keys : List Text) (key raw : Text) (s s' : List (Text × Text))
    → shelf.delete s keys ≡ some s'
    → shelf.get s' 0 key ≡ some (some raw)
    → (any keys (text_eq key) ≡ false) × (dict_get key s ≡ some raw)
kept keys key raw s s' e held =
    let left : without keys s ≡ s' = cc e in
    let found : dict_get key s' ≡ some raw = cc held in
    ground (arith, dict_get-without keys key s, left, found, ap (dict_get key) left)

pub shelf-IsLawful : IsLawful shelf
shelf-IsLawful = record {
  get-delete = λ s s' now keys key e m t raw later held.
      absurd (
        cc (In-any (text_eq key) keys key m (text_eq_refl key), (kept keys key raw s s' e held).0));
  delete-Absent = λ s s' now keys key e gone t raw later held.
      gone t raw later (ap some (kept keys key raw s s' e held).1);
  scan-complete = λ s now t prefix rest raw keys plain e later held.
      let found : dict_get (prefix ++ rest) s ≡ some raw = cc held in
      let all : filter (glob (prefix ++ codes "*")) (keys_of s) ≡ keys = cc e in
      subst (In (prefix ++ rest)) all (
        In-filter (glob (prefix ++ codes "*")) (keys_of s) (prefix ++ rest)
          (dict_get-In (prefix ++ rest) raw s found) (glob-prefix prefix rest));
}

pub shelf-IsUp : IsUp shelf
shelf-IsUp = record { scans = λ s now pattern. cc; deletes = λ s keys. cc }

abbrev before : World shelf
before = record { db = open_db; cache = (lookup_key (codes "+77000000001") alice, codes "{}") ∷ [] }

abbrev after : World shelf
after = record { db = over_db; cache = [] }

closed_now : close_session shelf 300 7 closed before ≡ ok (over_session, after)
unfolding close_session close_in_db flush update_session find_session mark_number_released
    find_number invalidate_number glob lookup_key number_e164 text_eq
closed_now = refl

dict_get-set :
    (key value k raw : Text) (s : List (Text × Text))
    → dict_get k ((key, value) ∷ s) ≡ some raw
    → (raw ≡ value) ⊎ (dict_get k s ≡ some raw)
dict_get-set key value k raw s h = elim (Bool-cases (text_eq key k)) [
  | inl same ↦ inl (ground (arith, same))
  | inr other ↦ inr (ground (arith, other))
]

shelf-IsStoring : IsStoring shelf
shelf-IsStoring = record {
  get-set = λ s s' now ttl t key value k raw e held.
      let left : (key, value) ∷ s ≡ s' = cc e in
      let found : dict_get k s' ≡ some raw = cc held in
      elim (dict_get-set key value k raw s
        (subst (λ x. dict_get k x ≡ some raw) (sym left) found)) [
          | inl same ↦ inl same
          | inr old ↦ inr (ap some old)
        ];
  loads-dumps = λ p q h. cc h;
}

toy-IsNaming : IsNaming toy
toy-IsNaming n m h = cc h

-- First Alice calls, and her miss is cached; then Bob, and then Alice again.
abbrev calls : List Visit
calls = visit alice 400 ∷ visit bob 450 ∷ visit alice 500 ∷ []
  where
    visit : Text → ℕ → Visit
    visit caller now = record {
      db = over_db;
      dialled = codes "+77000000001";
      caller = caller;
      now = now;
      nonce = nonce;
    }

closed_session_unreachable_example :
    Released 7 over_db
    × All (SpeaksOf (λ x. x.session_id ≢ 7)) (verdicts shelf toy ascii plain_settings [] calls)
unfolding normalize_e164 number_e164 find_number
closed_session_unreachable_example =
    closed_session_unreachable shelf toy ascii plain_settings 300 7 closed before after open_session
      over_session calls shelf-IsLawful shelf-IsUp shelf-IsStoring toy-IsNaming refl found refl
      closed_now
      (
        record { named = refl; after = omega arith; over = ground arith },
        (
          record { named = refl; after = omega arith; over = ground arith },
          (record { named = refl; after = omega arith; over = ground arith }, tt),
        ),
      )

-- A service that reports to an endpoint.
abbrev notifying : Settings
notifying = record plain_settings { webhook_url = codes "https://x"; webhook_secret = codes "s" }

expiry_reported :
    (expiry_round shelf notifying 600 before).0
    ≡ record { session_id = 7; proxy_number = codes "+77000000001" } ∷ []
unfolding expiry_round expire_due_sessions flush sort update_session webhooks_enabled number_e164
    find_number mark_number_released
expiry_reported = refl

expiry_round-IsOverdue_example :
    All (IsOverdue 600 open_db) (expiry_round shelf notifying 600 before).0
expiry_round-IsOverdue_example = expiry_round-IsOverdue shelf notifying 600 before

-- The pool before the pair asked for a number, with a route that was cached earlier.
abbrev unborn : World shelf
unborn = record {
  db = empty_db;
  cache = (lookup_key (codes "+77000000001") alice, codes "{}") ∷ [];
}

abbrev born_world : World shelf
born_world = record { db = born_db; cache = [] }

abbrev birth : CreatedSession
birth = record { session = born; allocation = alone }

created_world :
    create_session toy plain_settings surroundings request shelf ascii unborn
    ≡ ok (birth, born_world, 0)
unfolding create_session lookup_key text_eq invalidate_number glob
created_world = rw created refl

pub named : normalize_e164 ascii none (codes "8 700 000 00 01") ≡ ok (codes "+77000000001")
unfolding normalize_e164
named = refl

created_session_connects_example :
    Reaches shelf shelf-IsLawful shelf-IsUp toy plain_settings surroundings request toy-IsSound
      alice bob refl refl apart ascii born_world birth 200 nonce
      (codes "8 700 000 00 01")
      alice
      side_a
      alice
      bob
    × Reaches shelf shelf-IsLawful shelf-IsUp toy plain_settings surroundings request toy-IsSound
        alice bob refl refl apart ascii born_world birth 200 nonce
        (codes "8 700 000 00 01")
        bob
        side_b
        bob
        alice
created_session_connects_example =
    created_session_connects shelf shelf-IsLawful shelf-IsUp toy plain_settings surroundings request
      toy-IsSound alice bob refl refl apart ascii unborn born_world birth 0 200 nonce
      (codes "8 700 000 00 01") alice bob normal_alice normal_bob created_world refl empty-IsKeyed
      (omega arith) (omega arith) named normal_alice normal_bob

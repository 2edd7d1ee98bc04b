-- ===== src/Allocation/Extension.antt =====
-- app/services/allocation.py: what a shared number promises, on every path of the search.
use number_masking_service.Prelude.{
  ℕ, ◌≡◌, ◌⊎◌, refl, subst, none, some, List, [], ◌∷◌, Bool, true, leb, Text, Bool-cases,
  Option-cases, inl, inr, ◌≢◌, sym, find, find-eq-some, ◌==◌, ==→eq,
}
use number_masking_service.Errors.{Result, ok, >>=-eq-ok}
use number_masking_service.Settings.{Settings, ExtCodeMode, auto, always, never}
use number_masking_service.Crypto.{Primitives, generate_ext_code}
use number_masking_service.Db.{Db, Number, find_number}
use number_masking_service.Allocation.{
  Allocated, Counted, exclusive, extension, Promoted, fresh_code, generation_attempts,
  active_ext_codes, lock_number, promote_conflicting_sessions, share_row, share_number, share_first,
  allocate_with_extension_code, allocate_number, exclusive_number, extension_candidates, grant,
  grant_or_next, take_free, tries_exclusive, may_share, share_or_fail,
}
use number_masking_service.Allocation.Codes.{fresh_code-drawn}
use number_masking_service.Allocation.Kept.{Kept, Kept-refl, IsGiven, later-IsGiven, promotion-Kept}
use number_masking_service.Allocation.Promotion.{Reachable, promotion_complete}

-- The row of a candidate that was locked is the one with its identifier.
lock_number-found :
    (locked : ℕ → Bool) (db : Db) (i : ℕ) (row : Number)
    → lock_number locked db i ≡ some row
    → find_number db row.id ≡ some row
unfolding lock_number find_number
lock_number-found locked db i row e = elim (Bool-cases (locked i)) [
  | inl t ↦ absurd (cc (rw (t, lock_number) at e))
  | inr f ↦
      let found : find (λ n. n.id == i) db.numbers ≡ some row = rw (f, lock_number) at e in
      let key : row.id ≡ i = ==→eq row.id i (find-eq-some (λ n. n.id == i) db.numbers found) in
      subst (λ j. find (λ n. n.id == j) db.numbers ≡ some row) (sym key) found
]

-- A number of the pool that is shared: the session gets a PIN, and every active session of these
-- parties on the number has one too.
pub record IsShared (c : Primitives) (width : ℕ) (hashes : List Text) (db : Db) (got : Allocated)
    : Type 0 where
  pub code : Text
  pub pin : (draw : ℕ) × (generate_ext_code c draw width ≡ ok code)
  pub coded : got.allocation.ext_code ≡ some code
  pub shared : got.allocation.mode ≡ extension
  pub reachable : Reachable got.db got.allocation.number_id hashes
  pub given : IsGiven db got

module _ (c : Primitives) (settings : Settings) (hashes : List Text) (locked : ℕ → Bool) where
  -- A candidate is passed over, and the search goes on, or it is shared.
  Outcome : Db → (Db → ℕ → Result Allocated) → Allocated → Type 0
  Outcome db next got =
      ((db' : Db) × (draw : ℕ) × (next db' draw ≡ ok got) × Kept db db')
      ⊎ IsShared c settings.ext_code_length hashes db got

  granted-Outcome :
      (row : Number) (code : Text)
      (pin : (d : ℕ) × (generate_ext_code c d settings.ext_code_length ≡ ok code)) (p : Promoted)
      (next : Db → ℕ → Result Allocated) (got : Allocated) (used : List Text) (db : Db) (draw : ℕ)
      → find_number db row.id ≡ some row
      → promote_conflicting_sessions c settings.ext_code_length row.id hashes used db draw ≡ ok p
      → grant_or_next row code next p ≡ ok got
      → Outcome db next got
  unfolding Outcome grant_or_next
  granted-Outcome row code pin p next got used db draw stored e k = elim (Option-cases p.ids) [
    | inl n ↦ inl (p.db, p.draw, rw (n, grant_or_next) at k, kept)
    | inr (ids, i) ↦
        let same : grant row code p ids ≡ got = cc (rw (i, grant_or_next) at k) in
        inr (
          subst (IsShared c settings.ext_code_length hashes db) same (record {
            code = code;
            pin = pin;
            coded = refl;
            shared = refl;
            reachable =
                promotion_complete row.id hashes c settings.ext_code_length used ids db draw p e i;
            given = record { number = row; found = stored; named = refl; kept = kept };
          }))
  ]
    where
      kept : Kept db p.db
      kept = promotion-Kept c settings.ext_code_length row.id hashes used db draw p e

  share_row-Outcome :
      (row : Number) (db : Db) (draw : ℕ) (next : Db → ℕ → Result Allocated) (got : Allocated)
      → find_number db row.id ≡ some row
      → share_row c settings hashes locked row db draw next ≡ ok got
      → Outcome db next got
  unfolding Outcome share_row
  share_row-Outcome row db draw next got stored e =
      let used = active_ext_codes db row.id in
      let (drawn, first, e₁) =
        >>=-eq-ok (fresh_code c used settings.ext_code_length generation_attempts draw) _ e in
      elim (Option-cases drawn.0) [
        | inl n ↦ inl (db, drawn.1, rw n at e₁, Kept-refl db)
        | inr (code, f) ↦
            let (p, promoted, e₂) =
              >>=-eq-ok
                (promote_conflicting_sessions c settings.ext_code_length row.id hashes (code ∷ used)
                  db drawn.1)
                _ (rw f at e₁) in
            granted-Outcome row code
              (fresh_code-drawn c used settings.ext_code_length generation_attempts draw code drawn
                first f)
              p next got (code ∷ used) db drawn.1 stored promoted e₂
      ]

  -- The body of the loop goes on, or shares its number.
  share_number-Outcome :
      (candidate : Counted) (db : Db) (draw : ℕ) (next : Db → ℕ → Result Allocated)
      (got : Allocated)
      → share_number c settings hashes locked candidate db draw next ≡ ok got
      → Outcome db next got
  unfolding Outcome share_number
  share_number-Outcome candidate db draw next got e =
      elim (Bool-cases (leb settings.ext_code_max_per_number candidate.active_count)) [
        | inl t ↦ inl (db, draw, rw t at e, Kept-refl db)
        | inr f ↦ elim (Option-cases (lock_number locked db candidate.number.id)) [
          | inl n ↦ inl (db, draw, rw n at (rw f at e), Kept-refl db)
          | inr (row, l) ↦
              share_row-Outcome row db draw next got
                (lock_number-found locked db candidate.number.id row l) (rw l at (rw f at e))
        ]
      ]

  later_shared :
      (db db' : Db) (got : Allocated)
      → Kept db db'
      → IsShared c settings.ext_code_length hashes db' got
      → IsShared c settings.ext_code_length hashes db got
  later_shared db db' got kept h = record {
    code = h.code;
    pin = h.pin;
    coded = h.coded;
    shared = h.shared;
    reachable = h.reachable;
    given = later-IsGiven db db' got kept h.given;
  }

  share_first-IsShared :
      (rows : List Counted) (db : Db) (draw : ℕ) (got : Allocated)
      → share_first c settings hashes locked rows db draw ≡ ok got
      → IsShared c settings.ext_code_length hashes db got
  unfolding share_first Outcome
  share_first-IsShared [] db draw got e = absurd (cc)
  share_first-IsShared (candidate ∷ rest) db draw got e =
      elim (share_number-Outcome candidate db draw (share_first c settings hashes locked rest) got
        e) [
          | inl (db', draw', e', kept) ↦
              later_shared db db' got kept (share_first-IsShared rest db' draw' got e')
          | inr shared ↦ shared
        ]

  -- The number was free for both parties, and nothing else was changed.
  pub record IsExclusive (now : ℕ) (db : Db) (draw : ℕ) (got : Allocated) : Type 0 where
    pub row : Number
    pub free : exclusive_number settings hashes now locked db ≡ some row
    pub chosen : got.allocation.number_id ≡ row.id
    pub named : got.allocation.proxy_e164 ≡ row.e164
    pub uncoded : got.allocation.ext_code ≡ none
    pub mode : got.allocation.mode ≡ exclusive
    pub unpromoted : got.allocation.promoted_session_ids ≡ []
    pub same_db : got.db ≡ db
    pub same_draw : got.draw ≡ draw

  share_or_fail-IsShared :
      (now : ℕ) (allow : Bool) (db : Db) (draw : ℕ) (got : Allocated)
      → share_or_fail c settings hashes locked now allow db draw ≡ ok got
      → (may_share c settings hashes locked settings.ext_code_mode allow ≡ true)
        × IsShared c settings.ext_code_length hashes db got
  unfolding share_or_fail allocate_with_extension_code
  share_or_fail-IsShared now allow db draw got e =
      elim (Bool-cases (may_share c settings hashes locked settings.ext_code_mode allow)) [
        | inl t ↦ (
          t,
          share_first-IsShared (extension_candidates settings hashes now db) db draw got
              (rw t at e),
        )
        | inr f ↦ absurd (cc (rw f at e))
      ]

  tries_exclusive-ne :
      (m : ExtCodeMode) → tries_exclusive c settings hashes locked m ≡ true → m ≢ always
  unfolding tries_exclusive
  tries_exclusive-ne auto e = λ h. cc
  tries_exclusive-ne always e = absurd (cc)
  tries_exclusive-ne never e = λ h. cc

  may_share-allowed :
      (m : ExtCodeMode) (allow : Bool)
      → may_share c settings hashes locked m allow ≡ true
      → (m ≢ never) × (allow ≡ true)
  unfolding may_share
  may_share-allowed auto allow e = (λ h. cc, e)
  may_share-allowed always allow e = (λ h. cc, e)
  may_share-allowed never allow e = absurd (cc)

  Allowed : ℕ → Bool → Db → ℕ → Allocated → Type 0
  Allowed now allow db draw got =
      ((settings.ext_code_mode ≢ always) × IsExclusive now db draw got)
      ⊎ ((settings.ext_code_mode ≢ never)
          × (allow ≡ true)
          × IsShared c settings.ext_code_length hashes db got)

  shared-Allowed :
      (now : ℕ) (allow : Bool) (db : Db) (draw : ℕ) (got : Allocated)
      → share_or_fail c settings hashes locked now allow db draw ≡ ok got
      → Allowed now allow db draw got
  unfolding Allowed
  shared-Allowed now allow db draw got e =
      let (may, shared) = share_or_fail-IsShared now allow db draw got e in
      let (mode, allowed) = may_share-allowed settings.ext_code_mode allow may in
      inr (mode, allowed, shared)

  -- An allocation that succeeds is exclusive, in a mode that tries that, or shared, in a mode and a
  -- request that allow it; there is no third way.
  pub allocate_number_cases :
      (now : ℕ) (allow : Bool) (db : Db) (draw : ℕ) (got : Allocated)
      → allocate_number c settings hashes locked now allow db draw ≡ ok got
      → ((settings.ext_code_mode ≢ always) × IsExclusive now db draw got)
        ⊎ ((settings.ext_code_mode ≢ never)
            × (allow ≡ true)
            × IsShared c settings.ext_code_length hashes db got)
  unfolding allocate_number Allowed
  allocate_number_cases now allow db draw got e =
      elim (Bool-cases (tries_exclusive c settings hashes locked settings.ext_code_mode)) [
        | inr f ↦ shared-Allowed now allow db draw got (rw (f, allocate_number) at e)
        | inl t ↦ elim (Option-cases (exclusive_number settings hashes now locked db)) [
          | inl n ↦ shared-Allowed now allow db draw got (rw (t, n, allocate_number) at e)
          | inr (row, x) ↦
              let same : take_free row db draw ≡ got = cc (rw (t, x, allocate_number) at e) in
              inl (
                tries_exclusive-ne settings.ext_code_mode t,
                subst (IsExclusive now db draw) same (record {
                  row = row;
                  free = x;
                  chosen = refl;
                  named = refl;
                  uncoded = refl;
                  mode = refl;
                  unpromoted = refl;
                  same_db = refl;
                  same_draw = refl;
                }),
              )
        ]
      ]

-- ===== src/Db/Mirror.antt =====
-- app/db/triggers.py: what an update of a session leaves of the party rows.
use number_masking_service.Prelude.{
  ℕ, ◌≡◌, ◌∙◌, refl, List, [], ◌∷◌, arith, Bool, any, Option-cases, Bool-cases, All-zip, All-mono,
  subst, sym, true, false, filter, inl, inr, ◌==◌, All, find-eq-some, find-none, ==→eq,
}
use number_masking_service.Errors.{ok}
use number_masking_service.Db.{
  SessionStatus, active, expired, closed, is_active, same_status, fires, Db, Session, SessionParty,
  mirrored, sync_session_parties, trigger, update_session, replace_session, find_session, flush,
}

-- The columns that the trigger leaves alone.
abbrev pub SameKeys : (SessionParty → Bool) → Type 0
SameKeys p = (s : Session) (x : SessionParty) → p (mirrored s x) ≡ p x

module _ (p : SessionParty → Bool) (same : SameKeys p) where
  any-sync : (s : Session) (ps : List SessionParty) → any (sync_session_parties s ps) p ≡ any ps p
  unfolding sync_session_parties
  any-sync s [] = refl
  any-sync s (x ∷ ps) = ground (arith, same s x, any-sync s ps)

  any-trigger : (old new : Session) (ps : List SessionParty) → any (trigger old new ps) p ≡ any ps p
  unfolding trigger
  any-trigger old new ps = ground (arith, any-sync new ps)

  -- A test of the keys of a party has the same verdict after an update.
  pub any-update_session :
      (f : Session → Session) (i : ℕ) (db : Db)
      → any (update_session f i db).parties p ≡ any db.parties p
  unfolding update_session
  any-update_session f i db = elim (Option-cases (find_session db i)) [
    | inl n ↦ rw (n, update_session)
    | inr (s, e) ↦ rw (e, update_session) (any-trigger s (f s) db.parties)
  ]

sync-released :
    (s : Session) (ps : List SessionParty)
    → is_active s.status ≡ false
    → All
        (λ p. p.is_active ≡ false)
        (filter (λ p. p.session_id == s.id) (sync_session_parties s ps))
unfolding sync_session_parties mirrored
sync-released s [] h = tt
sync-released s (p ∷ ps) h = elim (Bool-cases (p.session_id == s.id)) [
  | inl t ↦ rw (t, t) (h, sync-released s ps h)
  | inr f ↦ rw (f, f) (sync-released s ps h)
]

status_differs :
    (a b : SessionStatus) → is_active a ≡ true → is_active b ≡ false → same_status a b ≡ false
status_differs active active h k = cc
status_differs active expired h k = refl
status_differs active closed h k = refl
status_differs expired b h k = cc
status_differs closed b h k = cc

-- When a session is over, the trigger has released its party rows.
pub trigger-released :
    (old new : Session) (ps : List SessionParty)
    → is_active old.status ≡ true
    → is_active new.status ≡ false
    → All (λ p. p.is_active ≡ false) (filter (λ p. p.session_id == new.id) (trigger old new ps))
unfolding trigger fires
trigger-released old new ps h k =
    rw (status_differs old.status new.status h k) (sync-released new ps k)

pub flush-eq-ok : (db db' : Db) → flush db ≡ ok db' → db ≡ db'
unfolding flush
flush-eq-ok db db' h = ground arith

module _ {κ} (P : Session → Type κ) where
  All-replace_session :
      (s : Session) (xs : List Session)
      → P s
      → All (λ x. (x.id == s.id) ≡ false → P x) xs
      → All P (replace_session s xs)
  unfolding replace_session
  All-replace_session s [] h k = tt
  All-replace_session s (x ∷ xs) h k = elim (Bool-cases (x.id == s.id)) [
    | inl t ↦ rw t (h, All-replace_session s xs h k.1)
    | inr f ↦ rw f (k.0 f, All-replace_session s xs h k.1)
  ]

  -- After an update of row `i`: the new row has the property if `f` gives it, and the others keep it.
  pub All-update_session :
      (f : Session → Session) (i : ℕ) (db : Db)
      → ((s : Session) → (f s).id ≡ s.id)
      → ((s : Session) → P (f s))
      → All (λ x. (x.id == i) ≡ false → P x) db.sessions
      → All P (update_session f i db).sessions
  unfolding update_session find_session
  All-update_session f i db keep h k = elim (Option-cases (find_session db i)) [
    | inl n ↦
        rw (n, update_session)
          (All-mono _ P db.sessions (λ x b. b.1 b.0)
            (All-zip _ _ db.sessions (find-none (λ s. s.id == i) db.sessions n) k))
    | inr (s, e) ↦
        let key : (f s).id ≡ i =
          keep s ∙ ==→eq s.id i (find-eq-some (λ s. s.id == i) db.sessions e) in
        rw (e, update_session)
          (All-replace_session (f s) db.sessions (h s)
            (subst (λ j. All (λ x. (x.id == j) ≡ false → P x) db.sessions) (sym key) k))
  ]

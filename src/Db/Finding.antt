-- ===== src/Db/Finding.antt =====
-- app/db/models.py: which row of `sessions` is found after an update of one.
use number_masking_service.Prelude.{
  ℕ, ◌≡◌, ◌≢◌, ◌∙◌, refl, sym, subst, some, List, [], ◌∷◌, arith, false, Bool-cases, Option-cases,
  inl, inr, find, find-eq-some, ==→eq, ==_refl, ◌==◌,
}
use number_masking_service.Db.{Db, Session, find_session, replace_session, update_session}

find-replace_session :
    (s old : Session) (xs : List Session)
    → find (λ x. x.id == s.id) xs ≡ some old
    → find (λ x. x.id == s.id) (replace_session s xs) ≡ some s
unfolding replace_session
find-replace_session s old [] h = cc
find-replace_session s old (x ∷ xs) h = elim (Bool-cases (x.id == s.id)) [
  | inl t ↦ rw (t, ==_refl s.id)
  | inr f ↦ rw (f, f) (find-replace_session s old xs (rw f at h))
]

pub id-find_session : (db : Db) (i : ℕ) (s : Session) → find_session db i ≡ some s → s.id ≡ i
unfolding find_session
id-find_session db i s e = ==→eq s.id i (find-eq-some (λ x. x.id == i) db.sessions e)

pub find-update_session :
    (f : Session → Session) (i : ℕ) (db : Db) (s : Session)
    → ((x : Session) → (f x).id ≡ x.id)
    → find_session db i ≡ some s
    → find_session (update_session f i db) i ≡ some (f s)
unfolding find_session update_session
find-update_session f i db s keep e =
    let key : (f s).id ≡ i = keep s ∙ ==→eq s.id i (find-eq-some (λ x. x.id == i) db.sessions e) in
    rw (e, update_session)
      (subst (λ j. find (λ x. x.id == j) (replace_session (f s) db.sessions) ≡ some (f s)) key
        (find-replace_session (f s) s db.sessions
          (subst (λ j. find (λ x. x.id == j) db.sessions ≡ some s) (sym key) e)))

find-other :
    (s : Session) (j : ℕ) (xs : List Session)
    → (s.id == j) ≡ false
    → find (λ x. x.id == j) (replace_session s xs) ≡ find (λ x. x.id == j) xs
unfolding replace_session
find-other s j [] h = refl
find-other s j (x ∷ xs) h = elim (Bool-cases (x.id == s.id)) [
  | inl t ↦
      let away : (x.id == j) ≡ false = rw (==→eq x.id s.id t) h in
      rw (t, h, away) (find-other s j xs h)
  | inr f ↦ rw f (ground (arith, find-other s j xs h))
]

-- The other rows are found as before.
pub find-update_session_other :
    (f : Session → Session) (i j : ℕ) (db : Db)
    → ((x : Session) → (f x).id ≡ x.id)
    → j ≢ i
    → find_session (update_session f i db) j ≡ find_session db j
unfolding find_session update_session
find-update_session_other f i j db keep apart = elim (Option-cases (find_session db i)) [
  | inl n ↦ rw (n, update_session)
  | inr (s, e) ↦
      let key : (f s).id ≡ i =
        keep s ∙ ==→eq s.id i (find-eq-some (λ x. x.id == i) db.sessions e) in
      let away : ((f s).id == j) ≡ false = elim (Bool-cases ((f s).id == j)) [
        | inl t ↦ absurd (apart (sym (==→eq (f s).id j t) ∙ key))
        | inr n ↦ n
      ] in
      rw (e, update_session) (find-other (f s) j db.sessions away)
]

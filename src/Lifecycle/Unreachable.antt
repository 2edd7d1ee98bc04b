-- ===== src/Lifecycle/Unreachable.antt =====
-- app/services/sessions.py and app/services/routing.py: no call is routed by a session that is
-- closed, whatever the lookup cache held.
use number_masking_service.Prelude.{
  ℕ, ◌≡◌, ◌≢◌, ◌≤◌, ◌∙◌, sym, ap, subst, none, some, ◌==◌, ==_refl, true, false, Text, List, [],
  ◌∷◌, All, All-mono, filter, refl, All-at, In-filter,
}
use number_masking_service.Errors.{ok, >>=-eq-ok, ok-injective}
use number_masking_service.Unicode.{Unicode}
use number_masking_service.Settings.{Settings}
use number_masking_service.Phone.{normalize_e164}
use number_masking_service.Phone.Normal.{IsE164, normalize_e164-IsE164}
use number_masking_service.Crypto.{Primitives}
use number_masking_service.Db.{Db, Session, SessionStatus, is_active, find_session}
use number_masking_service.Cache.{Redis, lookup_key, invalidate_number}
use number_masking_service.Cache.Dropping.{
  lookup_prefix-plain, IsLawful, IsUp, IsStoring, invalidate_number-Absent,
}
use number_masking_service.Lookup.{Candidate, candidate_of}
use number_masking_service.Lookup.Live.{IsRoute, load_candidates-IsRoute}
use number_masking_service.Routing.Entries.{
  Visit, verdicts, IsNaming, Clean, IsLater, verdicts-Apart,
}
use number_masking_service.Routing.Verdict.{SpeaksOf}
use number_masking_service.Sessions.{World}
use number_masking_service.Lifecycle.{
  get_session, close_in_db, close_session, invalidated, number_e164,
}
use number_masking_service.Lifecycle.Extending.{get_session-found}
use number_masking_service.Lifecycle.Ending.{close_in_db_releases}

-- A route is not of a session whose party rows are all released.
released-not-route :
    (c : Primitives) (key : Text) (db : Db) (proxy caller_hash : Text) (now i : ℕ) (x : Candidate)
    → All (λ p. p.is_active ≡ false) (filter (λ p. p.session_id == i) db.parties)
    → IsRoute c key db proxy caller_hash now x
    → x.session_id ≢ i
unfolding candidate_of
released-not-route c key db proxy caller_hash now i x released route same =
    let row = route.row_live in
    let own : row.party.session_id ≡ i =
      row.own ∙ sym (ap (λ (y : Candidate). y.session_id) route.copied) ∙ same in
    let mine : (row.party.session_id == i) ≡ true = rw (own, ==_refl i) in
    let off : row.party.is_active ≡ false =
      All-at (λ p. p.is_active ≡ false) (filter (λ p. p.session_id == i) db.parties) row.party
        released (In-filter (λ p. p.session_id == i) db.parties row.party row.party_stored mine) in
    cc (off, row.party_live)

-- What `close_session` does to a session that is active.
closing_active :
    (r : Redis) (now i : ℕ) (status : SessionStatus) (w w' : World r) (old s : Session)
    → find_session w.db i ≡ some old
    → is_active old.status ≡ true
    → close_session r now i status w ≡ ok (s, w')
    → (close_in_db now i status w.db ≡ ok (s, w'.db))
      × (w'.cache ≡ invalidate_number r w.cache now (number_e164 w'.db s.number_id))
unfolding close_session invalidated get_session
closing_active r now i status w w' old s found live e =
    let (old', g, e₁) = >>=-eq-ok (get_session w.db i) _ e in
    let ((s', db), k, e₂) = >>=-eq-ok (close_in_db now i status w.db) _ e₁ in
    let same : old' ≡ old = cc (get_session-found w.db i old' g, found) in
    let on : is_active old'.status ≡ true = cc (same, live) in
    let pair = ok-injective (rw on at e₂) in
    (
      subst (λ (p : Session × World r). close_in_db now i status w.db ≡ ok (p.0, p.1.db)) pair k,
      subst
          (λ (p : Session × World r).
            p.1.cache ≡ invalidate_number r w.cache now (number_e164 p.1.db p.0.number_id))
          pair refl,
    )

-- The party rows of the session are released.
abbrev pub Released : ℕ → Db → Type 0
Released i db = All (λ p. p.is_active ≡ false) (filter (λ p. p.session_id == i) db.parties)

-- A call on the number, not before the given time, that is looked up at tables in which the session is
-- over.
pub record IsAfter (u : Unicode) (i : ℕ) (proxy : Text) (now : ℕ) (v : Visit) : Type 0 where
  pub named : normalize_e164 u none v.dialled ≡ ok proxy
  pub after : now ≤ v.now
  pub over : Released i v.db

after-IsLater :
    (r : Redis) (storing : IsStoring r) (c : Primitives) (naming : IsNaming c) (u : Unicode)
    (settings : Settings) (i : ℕ) (proxy : Text) (now : ℕ) (v : Visit)
    → IsAfter u i proxy now v
    → IsLater r storing c naming u settings i proxy now v
after-IsLater r storing c naming u settings i proxy now v h = record {
  named = h.named;
  after = h.after;
  only = λ hash cs loaded.
      All-mono _ _ cs
        (λ x route.
          released-not-route c settings.encryption_key v.db proxy hash v.now i x h.over route)
        (load_candidates-IsRoute c settings v.db proxy hash v.now cs loaded);
}

dropped-Clean :
    (r : Redis) (storing : IsStoring r) (c : Primitives) (naming : IsNaming c) (u : Unicode)
    (settings : Settings) (i : ℕ) (proxy : Text) (now : ℕ) (s : r.Store)
    → IsLawful r
    → IsUp r
    → IsE164 u proxy
    → Clean r storing c naming u settings i proxy now (invalidate_number r s now proxy)
dropped-Clean r storing c naming u settings i proxy now s lawful up number t hash raw p later held
      read =
    absurd (
      invalidate_number-Absent r lawful up now (lookup_key proxy hash) s proxy hash refl
        (lookup_prefix-plain u proxy number) t raw later held)

-- When close_session has ended an active session, the session's party rows are released, and no call
-- on its number is routed by it: whatever calls are looked up one after the other, at whatever later
-- times, and whatever they cache, no verdict connects to the session or offers it in the question
-- for a PIN. The first of the calls finds the cache as close_session left it, and each finds tables
-- in which those rows are released: so none is looked up between the dropping of the cached routes
-- and the commit. The cache server answers and does what it documents, as do the texts of
-- identifiers.
pub closed_session_unreachable :
    (r : Redis) (c : Primitives) (u : Unicode) (settings : Settings) (now i : ℕ)
    (status : SessionStatus) (w w' : World r) (old s : Session) (calls : List Visit)
    → IsLawful r
    → IsUp r
    → IsStoring r
    → IsNaming c
    → is_active status ≡ false
    → find_session w.db i ≡ some old
    → is_active old.status ≡ true
    → close_session r now i status w ≡ ok (s, w')
    → All (IsAfter u i (number_e164 w'.db s.number_id) now) calls
    → Released i w'.db
      × All (SpeaksOf (λ x. x.session_id ≢ i)) (verdicts r c u settings w'.cache calls)
closed_session_unreachable r c u settings now i status w w' old s calls lawful up storing naming
      over found live closing later =
    let (closed, dropped) = closing_active r now i status w w' old s found live closing in
    (
      close_in_db_releases now i status w.db w'.db old s over found live closed,
      answered calls later dropped,
    )
  where
    proxy : Text
    proxy = number_e164 w'.db s.number_id

    answered :
        (vs : List Visit)
        → All (IsAfter u i proxy now) vs
        → w'.cache ≡ invalidate_number r w.cache now proxy
        → All (SpeaksOf (λ x. x.session_id ≢ i)) (verdicts r c u settings w'.cache vs)
    answered [] h dropped = unfold verdicts in tt
    answered (v ∷ vs) h dropped =
        let number = normalize_e164-IsE164 u v.dialled proxy h.0.named in
        let clean =
          subst (Clean r storing c naming u settings i proxy now) (sym dropped)
            (dropped-Clean r storing c naming u settings i proxy now w.cache lawful up number) in
        verdicts-Apart r storing c naming u settings i proxy now w'.cache (v ∷ vs) clean
          (All-mono _ _ (v ∷ vs) (after-IsLater r storing c naming u settings i proxy now) h)

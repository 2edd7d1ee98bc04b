-- ===== src/Lifecycle/Retention.antt =====
-- app/services/sessions.py: what `purge_old_records` deletes and keeps.
use number_masking_service.Prelude.{
  ℕ, ◌+◌, ◌*◌, ◌≡◌, ◌≤◌, ap, List, [], ◌∷◌, map, here, there, arith, Bool, not, filter, All,
  All-map, All-mono, All-In, All-filter, All-filter_of, All-zip, In, In-filter,
}
use number_masking_service.Settings.{Settings, day}
use number_masking_service.Journal.{Call}
use number_masking_service.Db.{Db, Session, is_active}
use number_masking_service.Lifecycle.{old_call, old_session, detach, purge_old_records}

detach-started : (gone : List Session) (c : Call) → (detach gone c).started_at ≡ c.started_at
unfolding detach
detach-started gone c = ground arith

detach-id : (gone : List Session) (c : Call) → (detach gone c).id ≡ c.id
unfolding detach
detach-id gone c = ground arith

In-map {ℓ κ} :
    {A : Type ℓ} {B : Type κ} (f : A → B) (xs : List A) (x : A) → In x xs → In (f x) (map f xs)
In-map f [] x m = elim m [ ]
In-map f (y ∷ xs) x (here e) = here (ap f e)
In-map f (y ∷ xs) x (there m) = there (In-map f xs x m)

-- A purge deletes the calls that began before the retention window, and no others: none of them is
-- left, and a call that began within the window keeps a row with its identifier and its beginning.
-- Every session that is active stays as it is.
pub purge_old_records_keeps :
    (settings : Settings) (now : ℕ) (db : Db)
    → All
        (λ c. now ≤ c.started_at + settings.call_retention_days * day)
        (purge_old_records settings now db).0.calls.rows
      × All
          (λ c.
            now ≤ c.started_at + settings.call_retention_days * day
            → (x : Call) × In x (purge_old_records settings now db).0.calls.rows
              × (x.id ≡ c.id)
              × (x.started_at ≡ c.started_at))
          db.calls.rows
      × All
          (λ s. In s (purge_old_records settings now db).0.sessions)
          (filter (λ s. is_active s.status) db.sessions)
unfolding purge_old_records old_call old_session
purge_old_records_keeps settings now db =
    let window = settings.call_retention_days * day in
    let young : Call → Bool = λ c. not (old_call now window c) in
    let kept : Session → Bool =
      λ s. not (old_session now (settings.closed_session_retention_days * day) s) in
    let live : Session → Bool = λ s. is_active s.status in
    let gone =
      filter (old_session now (settings.closed_session_retention_days * day)) db.sessions in
    (
      All-map _ (detach gone) (filter young db.calls.rows) (
          All-mono _ _ (filter young db.calls.rows) (λ c h. ground (arith, detach-started gone c))
            (All-filter young db.calls.rows)),
      All-mono (λ c. In c db.calls.rows) _ db.calls.rows
          (λ c m recent. (
            detach gone c,
            In-map (detach gone) (filter young db.calls.rows) c
                (In-filter young db.calls.rows c m (ground (arith, recent))),
            detach-id gone c,
            detach-started gone c,
          ))
          (All-In db.calls.rows),
      All-mono _ _ (filter live db.sessions)
          (λ s h. In-filter kept db.sessions s h.0 (ground (arith, h.1)))
          (All-zip _ _ (filter live db.sessions)
            (All-filter_of (λ s. In s db.sessions) live db.sessions (All-In db.sessions))
            (All-filter live db.sessions)),
    )

-- ===== src/Sessions/Creation.antt =====
-- app/services/sessions.py: what a `create_session` that succeeds has done.
use number_masking_service.Prelude.{
  ℕ, ◌≡◌, ◌≢◌, sym, ap, subst, ◌∙◌, Option, none, arith, Text, text_eq_refl,
}
use number_masking_service.Errors.{Result, ok, err, >>=-eq-ok, ok-injective}
use number_masking_service.Unicode.{Unicode}
use number_masking_service.Settings.{Settings}
use number_masking_service.Phone.{normalize_e164}
use number_masking_service.Crypto.{Primitives}
use number_masking_service.Db.{Db, flush}
use number_masking_service.Db.Mirror.{flush-eq-ok}
use number_masking_service.Allocation.{Allocated, allocate_number}
use number_masking_service.Sessions.{
  Surroundings, SessionCreate, CreatedSession, create_in_db, check_different, check_ttl,
  check_max_calls, ttl_or_default, conflict, new_session, new_parties, insert_session, hashes,
}

-- The steps of a creation that succeeded, for two numbers in E.164 form.
pub record IsCreated (c : Primitives) (settings : Settings) (env : Surroundings)
    (req : SessionCreate) (number_a number_b : Text) (db : Db) (created : CreatedSession) (db' : Db)
    : Type 0 where
  pub ttl : ℕ
  pub max_calls : Option ℕ
  pub got : Allocated
  pub different : number_a ≢ number_b
  pub lifetime :
      check_ttl settings.max_ttl_seconds (ttl_or_default settings req.ttl_seconds) ≡ ok ttl
  pub cap : check_max_calls req.max_calls ≡ ok max_calls
  pub allocated :
      allocate_number c settings
        (hashes c settings env req number_a number_b)
        env.locked
        env.sql_now
        req.allow_extension_code
        db
        env.draw
      ≡ ok got
  pub same_allocation : created.allocation ≡ got.allocation
  pub session : created.session ≡ new_session c settings env req got.allocation ttl max_calls
  pub stored :
      db'
      ≡ insert_session c settings env req got.db created.session
          (new_parties c settings env req got.allocation number_a number_b)
  pub flushed : flush db' ≡ ok db'

check_different-ne : (a b : Text) (x : Unit {0}) → check_different a b ≡ ok x → a ≢ b
unfolding check_different
check_different-ne a b x e = λ h. ground (arith, text_eq_refl a, h)

conflict-eq-ok {ℓ} : {A : Type ℓ} (r : Result A) (a : A) → conflict r ≡ ok a → r ≡ ok a
unfolding conflict
conflict-eq-ok (ok b) a e = e
conflict-eq-ok (err x) a e = absurd (cc)

module _ (c : Primitives) (settings : Settings) (env : Surroundings) (req : SessionCreate) where
  pub create_in_db-IsCreated :
      (u : Unicode) (a b : Text) (db : Db) (created : CreatedSession) (db' : Db) (draw : ℕ)
      → normalize_e164 u none req.party_a ≡ ok a
      → normalize_e164 u none req.party_b ≡ ok b
      → create_in_db c settings env req u db ≡ ok (created, db', draw)
      → IsCreated c settings env req a b db created db'
  unfolding create_in_db
  create_in_db-IsCreated u a b db created db' draw na nb e =
      let (d, ed, e₃) = >>=-eq-ok (check_different a b) _ (rw (na, nb) at e) in
      let (ttl, et, e₄) =
        >>=-eq-ok (check_ttl settings.max_ttl_seconds (ttl_or_default settings req.ttl_seconds)) _
          e₃ in
      let (cap, em, e₅) = >>=-eq-ok (check_max_calls req.max_calls) _ e₄ in
      let (got, eg, e₆) =
        >>=-eq-ok
          (allocate_number c settings (hashes c settings env req a b) env.locked env.sql_now
            req.allow_extension_code db env.draw)
          _ e₅ in
      let s = new_session c settings env req got.allocation ttl cap in
      let parties = new_parties c settings env req got.allocation a b in
      let all = insert_session c settings env req got.db s parties in
      let (db₁, ef, e₇) = >>=-eq-ok (conflict (flush all)) _ e₆ in
      let same = flush-eq-ok all db₁ (conflict-eq-ok (flush all) db₁ ef) in
      let done = ok-injective e₇ in
      let made = ap (λ (t : CreatedSession × Db × ℕ). t.0.session) done in
      record {
        ttl = ttl;
        max_calls = cap;
        got = got;
        different = check_different-ne a b d ed;
        lifetime = et;
        cap = em;
        allocated = eg;
        same_allocation = sym (ap (λ (t : CreatedSession × Db × ℕ). t.0.allocation) done);
        session = sym made;
        stored =
            sym (ap (λ (t : CreatedSession × Db × ℕ). t.1) done)
            ∙ sym same
            ∙ ap (λ x. insert_session c settings env req got.db x parties) made;
        flushed =
            subst (λ x. flush x ≡ ok x) (ap (λ (t : CreatedSession × Db × ℕ). t.1) done)
              (subst (λ x. flush x ≡ ok db₁) same (conflict-eq-ok (flush all) db₁ ef));
      }

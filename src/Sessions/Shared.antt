-- ===== src/Sessions/Shared.antt =====
-- app/services/sessions.py and allocation.py: what a session with a PIN finds on its number.
use number_masking_service.Prelude.{
  ℕ, ◌≡◌, ◌≢◌, ◌∙◌, ◌<◌, refl, sym, subst, ap, none, some, Option, [], ◌∷◌, arith, true, false,
  Text, All, any-false, false-any, ◌==◌, here, there, inl, inr, length, is_empty,
}
use number_masking_service.Errors.{ok}
use number_masking_service.Settings.{Settings}
use number_masking_service.Crypto.{Primitives, party_hash, nonce_bytes, decrypt_e164}
use number_masking_service.Crypto.Pins.{IsBelow, generate_ext_code-IsPin, generate_ext_code_pos}
use number_masking_service.Crypto.Sealing.{IsSound, decrypt-encrypt}
use number_masking_service.Db.{
  Db, Session, Role, side_a, side_b, is_active, mirrored, distinct, codes_clash, flush, find_number,
}
use number_masking_service.Allocation.{Allocation}
use number_masking_service.Allocation.Extension.{IsShared, allocate_number_cases}
use number_masking_service.Lookup.Added.{IsKeyed, added}
use number_masking_service.Lookup.Chosen.{IsSide}
use number_masking_service.Lookup.Coded.{IsPlaced}
use number_masking_service.Sessions.{
  Surroundings, SessionCreate, CreatedSession, new_session, new_party, new_parties, insert_session,
  hashes,
}
use number_masking_service.Sessions.Creation.{IsCreated}
use number_masking_service.Sessions.Routes.{other_a, other_b}

flush-distinct : (db d : Db) → flush db ≡ ok d → distinct codes_clash db.sessions ≡ true
unfolding flush
flush-distinct db d e = ground arith

no_code : {t : Text} → ◌≡◌ {A = Option Text} none (some t) → ⊥
no_code e = cc

module _ (c : Primitives) (settings : Settings) (env : Surroundings) (req : SessionCreate)
    (a b : Text) where
  -- A session with a PIN was given a number that is shared.
  pub created-IsShared :
      (db : Db) (created : CreatedSession) (db' : Db) (code : Text)
      (k : IsCreated c settings env req a b db created db')
      → created.allocation.ext_code ≡ some code
      → IsShared c settings.ext_code_length (hashes c settings env req a b) db k.got
  created-IsShared db created db' code k e =
      elim (allocate_number_cases c settings (hashes c settings env req a b) env.locked env.sql_now
        req.allow_extension_code db env.draw k.got k.allocated) [
          | inl (_, ex) ↦ absurd (
              no_code
                (sym ex.uncoded ∙ sym (ap (λ (x : Allocation). x.ext_code) k.same_allocation) ∙ e))
          | inr (_, _, shared) ↦ shared
        ]

  module _ (db : Db) (created : CreatedSession) (db' : Db) (code : Text)
      (k : IsCreated c settings env req a b db created db')
      (coded : created.allocation.ext_code ≡ some code) where
    abbrev shared : IsShared c settings.ext_code_length (hashes c settings env req a b) db k.got
    shared = created-IsShared db created db' code k coded

    pub id-created : created.session.id ≡ env.uuid
    unfolding new_session
    id-created = ap (λ (x : Session). x.id) k.session

    pub code-created : created.session.ext_code ≡ some code
    unfolding new_session
    code-created =
        ap (λ (x : Session). x.ext_code) k.session
        ∙ sym (ap (λ (x : Allocation). x.ext_code) k.same_allocation)
        ∙ coded

    pub fresh-created :
        IsKeyed env.uuid db → All (λ p. (p.session_id == env.uuid) ≡ false) k.got.db.parties
    unfolding mirrored
    fresh-created keyed =
        any-false (λ p. p.session_id == env.uuid) k.got.db.parties
          (shared.given.kept.keys (λ p. p.session_id == env.uuid) (λ s x. refl)
            ∙ false-any (λ p. p.session_id == env.uuid) db.parties keyed.fresh_party)

    pub tables-created :
        db' ≡ added k.got.db created.session (new_parties c settings env req k.got.allocation a b)
    unfolding insert_session
    tables-created = k.stored

    -- The new session stands on its number with a PIN of its own.
    pub created-IsPlaced :
        (now : ℕ)
        → IsKeyed env.uuid db
        → now < created.session.expires_at
        → IsPlaced k.got.db created.allocation.proxy_e164 now created.session
    unfolding find_number new_session
    created-IsPlaced now keyed in_time =
        let given = shared.given in
        let same_number = ap (λ (x : Session). x.number_id) k.session in
        record {
          number = given.number;
          found = rw (given.kept.numbers, same_number) given.found;
          named = ap (λ (x : Allocation). x.proxy_e164) k.same_allocation ∙ given.named;
          by_e164 = rw (given.kept.numbers) keyed.by_e164;
          live = ap (λ (x : Session). is_active x.status) k.session;
          in_time = in_time;
          apart =
              subst (λ (d : Db). distinct codes_clash d.sessions ≡ true) tables-created
                (flush-distinct db' db' k.flushed);
          fresh_party = rw id-created (fresh-created keyed);
        }

    -- A drawn PIN is not empty.
    pub code-nonempty : IsBelow c → is_empty code ≡ false
    code-nonempty below =
        let (d, drawn) = shared.pin in
        let long =
          (generate_ext_code-IsPin c d settings.ext_code_length shared.code below drawn).long in
        let some_digits = generate_ext_code_pos c d settings.ext_code_length shared.code drawn in
        let same : shared.code ≡ code =
          cc (shared.coded, ap (λ (x : Allocation). x.ext_code) k.same_allocation, coded) in
        rw (← same) (not_empty shared.code (omega (arith, long, some_digits)))
      where
        not_empty : (t : Text) → 0 < length t → is_empty t ≡ false
        not_empty [] h = absurd (omega arith)
        not_empty (x ∷ t) h = refl

module _ (c : Primitives) (settings : Settings) (env : Surroundings) (req : SessionCreate)
    (sound : IsSound c) (a b : Text) (nonce_a : length env.nonce_a ≡ nonce_bytes)
    (nonce_b : length env.nonce_b ≡ nonce_bytes)
    (apart : party_hash c a settings.party_hash_secret ≢ party_hash c b settings.party_hash_secret)
    (db : Db) (s : Session) (al : Allocation) (id : s.id ≡ env.uuid)
    (fresh : All (λ p. (p.session_id == env.uuid) ≡ false) db.parties) where
  abbrev Side : Text → Role → Text → Type 0
  Side h role callee =
      IsSide c settings.encryption_key db s (new_parties c settings env req al a b) h role callee

  opens_a :
      decrypt_e164 c
        (new_party c settings env req side_a env.nonce_a a al).party_e164_enc
        settings.encryption_key
      ≡ ok a
  unfolding new_party
  opens_a = decrypt-encrypt c sound env.nonce_a a settings.encryption_key nonce_a

  opens_b :
      decrypt_e164 c
        (new_party c settings env req side_b env.nonce_b b al).party_e164_enc
        settings.encryption_key
      ≡ ok b
  unfolding new_party
  opens_b = decrypt-encrypt c sound env.nonce_b b settings.encryption_key nonce_b

  pub first-Side : Side (party_hash c a settings.party_hash_secret) side_a b
  unfolding new_parties new_party
  first-Side = record {
    own = new_party c settings env req side_a env.nonce_a a al;
    own_stored = here refl;
    own_session = sym id;
    own_hash = refl;
    own_live = refl;
    own_role = refl;
    only = (λ e. refl, (λ e. absurd (apart (sym e)), tt));
    other = new_party c settings env req side_b env.nonce_b b al;
    other_found = other_b c settings env req sound a b nonce_a nonce_b apart db s al id fresh;
    decrypted = opens_b;
    opposite = (λ e. absurd (e refl), (λ e. opens_b, tt));
  }

  pub second-Side : Side (party_hash c b settings.party_hash_secret) side_b a
  unfolding new_parties new_party
  second-Side = record {
    own = new_party c settings env req side_b env.nonce_b b al;
    own_stored = there (here refl);
    own_session = sym id;
    own_hash = refl;
    own_live = refl;
    own_role = refl;
    only = (λ e. absurd (apart e), (λ e. refl, tt));
    other = new_party c settings env req side_a env.nonce_a a al;
    other_found = other_a c settings env req sound a b nonce_a nonce_b apart db s al id fresh;
    decrypted = opens_a;
    opposite = (λ e. opens_a, (λ e. absurd (e refl), tt));
  }

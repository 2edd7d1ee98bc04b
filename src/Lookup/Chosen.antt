-- ===== src/Lookup/Chosen.antt =====
-- app/services/routing.py: a caller who enters the PIN of a session gets that session.
use number_masking_service.Prelude.{
  ℕ, ◌≡◌, ◌∙◌, sym, ap, ap₂, subst, some, List, [], ◌∷◌, true, false, Text, is_empty, All, All-at,
  All-mono, In, here, there, inl, inr, ◌≢◌, Option-cases,
}
use number_masking_service.Errors.{ok, ok-injective, >>=-eq-ok}
use number_masking_service.Settings.{Settings}
use number_masking_service.Crypto.{Primitives, decrypt_e164}
use number_masking_service.Db.{Db, Role, Session, SessionParty}
use number_masking_service.Lookup.{
  Candidate, Row, candidate_of, candidates_of, load_candidates, live_rows, other_party,
  select_by_code,
}
use number_masking_service.Lookup.Added.{added}
use number_masking_service.Lookup.Codes.{select_by_code_lem}
use number_masking_service.Lookup.Coded.{IsPlaced, own_party, coded_row, caller_row}
use number_masking_service.Lookup.Live.{IsRoute, load_candidates-IsRoute}

In-candidates_of :
    (c : Primitives) (key : Text) (db : Db) (row : Row) (p : SessionParty) (callee : Text)
    (rows : List Row) (cs : List Candidate)
    → In row rows
    → other_party db row ≡ some p
    → decrypt_e164 c p.party_e164_enc key ≡ ok callee
    → candidates_of c key db rows ≡ ok cs
    → In (candidate_of row callee) cs
unfolding candidates_of
In-candidates_of c key db row p callee [] cs m o d e = elim m [ ]
In-candidates_of c key db row p callee (x ∷ rows) cs (here same) o d e =
    let o' : other_party db x ≡ some p = subst (λ y. other_party db y ≡ some p) same o in
    let (others, _, e₁) =
      >>=-eq-ok (candidates_of c key db rows) _ (rw (o', candidates_of, d) at e) in
    subst (In (candidate_of row callee)) (ok-injective e₁)
      (here (ap (λ y. candidate_of y callee) same))
In-candidates_of c key db row p callee (x ∷ rows) cs (there m) o d e =
    elim (Option-cases (other_party db x)) [
      | inl n ↦ In-candidates_of c key db row p callee rows cs m o d (rw (n, candidates_of) at e)
      | inr (y, s) ↦
          let (text, _, e₁) =
            >>=-eq-ok (decrypt_e164 c y.party_e164_enc key) _ (rw (s, candidates_of) at e) in
          let (others, r, e₂) = >>=-eq-ok (candidates_of c key db rows) _ e₁ in
          subst (In (candidate_of row callee)) (ok-injective e₂)
            (there (In-candidates_of c key db row p callee rows others m o d r))
    ]

-- A side of a session: its party row, which alone has its hash, and the number of the other side.
pub record IsSide (c : Primitives) (key : Text) (db : Db) (s : Session) (ps : List SessionParty)
    (h : Text) (role : Role) (callee : Text) : Type 0 where
  pub own : SessionParty
  pub own_stored : In own ps
  pub own_session : own.session_id ≡ s.id
  pub own_hash : own.party_hash ≡ h
  pub own_live : own.is_active ≡ true
  pub own_role : own.role ≡ role
  pub only : All (λ p. p.party_hash ≡ h → p.role ≡ role) ps
  pub other : SessionParty
  pub other_found : other_party (added db s ps) (record { session = s; role = role }) ≡ some other
  pub decrypted : decrypt_e164 c other.party_e164_enc key ≡ ok callee
  pub opposite : All (λ p. p.role ≢ role → decrypt_e164 c p.party_e164_enc key ≡ ok callee) ps

-- A list that holds one candidate with the PIN, and offers it.
pub record Holds (code : Text) (mine : Candidate) (cs : List Candidate) : Type 0 where
  pub within : In mine cs
  pub alone : All (λ x. x.ext_code ≡ some code → x ≡ mine) cs

pub Holds-selected :
    (code : Text) (mine : Candidate) (cs : List Candidate)
    → is_empty code ≡ false
    → mine.ext_code ≡ some code
    → Holds code mine cs
    → select_by_code cs code ≡ some mine
Holds-selected code mine cs some_code coded held = elim (select_by_code_lem cs code some_code) [
  | inl (x, e, m, k) ↦ e ∙ ap some (All-at _ cs x held.alone m k)
  | inr (n, others) ↦ absurd (All-at _ cs mine others held.within coded)
]

module _ (c : Primitives) (settings : Settings) (db : Db) (proxy : Text) (now : ℕ) (s : Session)
    (ps : List SessionParty) (placed : IsPlaced db proxy now s) (h code : Text) (role : Role)
    (callee : Text) (coded : s.ext_code ≡ some code)
    (side : IsSide c settings.encryption_key db s ps h role callee) where
  abbrev row : Row
  row = record { session = s; role = role }

  abbrev tables : Db
  tables = added db s ps

  -- A candidate with the PIN is this session, for this side.
  route_own :
      (x : Candidate)
      → IsRoute c settings.encryption_key tables proxy h now x
      → x.ext_code ≡ some code
      → x ≡ candidate_of row callee
  unfolding candidate_of
  route_own x r e =
      let live = r.row_live in
      let has_code : r.row.session.ext_code ≡ some code =
        sym (ap (λ (y : Candidate). y.ext_code) r.copied) ∙ e in
      let same : r.row.session ≡ s =
        coded_row db proxy now s ps placed h code r.row coded live has_code in
      let id : r.row.session.id ≡ s.id = ap (λ (y : Session). y.id) same in
      let mine = own_party db proxy now s ps placed live.party live.party_stored (live.own ∙ id) in
      let role_same : r.row.role ≡ role =
        sym live.role ∙ All-at _ ps live.party side.only mine live.caller in
      let whole : r.row ≡ row = ap₂ (λ y z. record { session = y; role = z }) same role_same in
      let theirs =
        own_party db proxy now s ps placed r.callee r.callee_stored (r.callee_own ∙ id) in
      let opened =
        All-at _ ps r.callee side.opposite theirs (λ k. r.opposite (k ∙ sym role_same)) in
      let number : x.callee_e164 ≡ callee = ok-injective (sym r.decrypted ∙ opened) in
      r.copied ∙ ap₂ candidate_of whole number

  -- The candidates of this side hold the session, and no other with its PIN.
  pub load_candidates-Holds :
      (cs : List Candidate)
      → load_candidates c settings tables proxy h now ≡ ok cs
      → Holds code (candidate_of row callee) cs
  unfolding load_candidates
  load_candidates-Holds cs e =
      let listed : In row (live_rows tables proxy h now) =
        subst (λ y. In (record { session = s; role = y }) (live_rows tables proxy h now))
          side.own_role
          (caller_row db proxy now s ps placed h side.own side.own_stored side.own_session
            side.own_hash side.own_live) in
      record {
        within =
            In-candidates_of c settings.encryption_key tables row side.other callee
              (live_rows tables proxy h now) cs listed side.other_found side.decrypted e;
        alone =
            All-mono _ _ cs route_own (load_candidates-IsRoute c settings tables proxy h now cs e);
      }

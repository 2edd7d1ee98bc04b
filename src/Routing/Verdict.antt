-- ===== src/Routing/Verdict.antt =====
-- app/services/routing.py: what the verdict may reveal, and to whom it connects.
use number_masking_service.Prelude.{
  ℕ, ◌≡◌, refl, subst, Option, none, some, List, [], ◌∷◌, true, Text, All, All-mono, All-zip,
  All-filter, All-filter_of, filter,
}
use number_masking_service.Errors.{ok, >>=-eq-ok}
use number_masking_service.Unicode.{Unicode}
use number_masking_service.Settings.{Settings}
use number_masking_service.Crypto.{Primitives}
use number_masking_service.Db.{Db}
use number_masking_service.Cache.{Redis}
use number_masking_service.Lookup.{
  Candidate, has_code, load_candidates, had_session, live_rows, candidates_of,
}
use number_masking_service.Lookup.Live.{IsRoute, load_candidates-IsRoute}
use number_masking_service.Routing.{
  reject, Decision, decide, resolve_from_db, rejection, connection, question, ask, remember,
  miss_status,
}

-- `P` holds of the candidate, if there is one.
abbrev pub OfSome {κ} : (Candidate → Type κ) → Option Candidate → Type κ
OfSome P none = Unit
OfSome P (some x) = P x

-- A decision that only speaks of routes: the candidate that it connects is one, and so is each
-- candidate that a PIN chooses between, which also carries a PIN.
pub record SpeaksOf {κ} (P : Candidate → Type κ) (d : Decision) : Type κ where
  pub connected : OfSome P d.candidate
  pub asked : All (λ x. P x × (has_code x ≡ true)) d.candidates

OfSome-mono {κ ι} :
    (P : Candidate → Type κ) (Q : Candidate → Type ι) (o : Option Candidate)
    → ((x : Candidate) → P x → Q x)
    → OfSome P o
    → OfSome Q o
OfSome-mono P Q none f h = tt
OfSome-mono P Q (some x) f h = f x h

pub SpeaksOf-mono {κ ι} :
    (P : Candidate → Type κ) (Q : Candidate → Type ι) (d : Decision)
    → ((x : Candidate) → P x → Q x)
    → SpeaksOf P d
    → SpeaksOf Q d
SpeaksOf-mono P Q d f h = record {
  connected = OfSome-mono P Q d.candidate f h.connected;
  asked = All-mono _ _ d.candidates (λ x h. (f x h.0, h.1)) h.asked;
}

module _ {κ} {P : Candidate → Type κ} (settings : Settings) (db : Db)
    (proxy caller_hash : Text) where
  pub reject-SpeaksOf :
      (status prompt : Text) → SpeaksOf P (rejection proxy caller_hash status prompt)
  unfolding rejection
  reject-SpeaksOf status prompt = record { connected = tt; asked = tt }

  ask-SpeaksOf :
      (cs : List Candidate)
      → All (λ x. P x × (has_code x ≡ true)) cs
      → SpeaksOf P (ask settings proxy caller_hash cs)
  unfolding ask rejection question
  ask-SpeaksOf [] h = record { connected = tt; asked = tt }
  ask-SpeaksOf (c ∷ cs) h = record { connected = tt; asked = h }

  pub decide-SpeaksOf :
      (cs : List Candidate) → All P cs → SpeaksOf P (decide settings db proxy caller_hash cs)
  unfolding decide rejection connection
  decide-SpeaksOf [] h = record { connected = tt; asked = tt }
  decide-SpeaksOf (c ∷ []) h = record { connected = h.0; asked = tt }
  decide-SpeaksOf (c ∷ d ∷ more) h =
      let cs = c ∷ d ∷ more in
      ask-SpeaksOf (filter has_code cs)
        (All-zip P _ (filter has_code cs) (All-filter_of P has_code cs h) (All-filter has_code cs))

-- A verdict that is read from the database connects only to live routes of the caller on the
-- dialled number, and asks for a PIN only between such routes, each of which has one.
pub resolve_from_db-SpeaksOf :
    (r : Redis) (c : Primitives) (u : Unicode) (settings : Settings) (s s' : r.Store) (db : Db)
    (proxy caller_hash : Text) (now : ℕ) (nonce : Text) (d : Decision)
    → resolve_from_db r c u settings s db proxy caller_hash now nonce ≡ ok (d, s')
    → SpeaksOf (IsRoute c settings.encryption_key db proxy caller_hash now) d
unfolding resolve_from_db
resolve_from_db-SpeaksOf r c u settings s s' db proxy caller_hash now nonce d e =
    let (cs, loaded, rest) = >>=-eq-ok (load_candidates c settings db proxy caller_hash now) _ e in
    let same : decide settings db proxy caller_hash cs ≡ d = cc rest in
    subst (SpeaksOf _) same (
      decide-SpeaksOf settings db proxy caller_hash cs
        (load_candidates-IsRoute c settings db proxy caller_hash now cs loaded))

-- A caller with no live session on the number is rejected, and the verdict names no session: it
-- depends on nothing but whether this caller ever had a session there.
pub no_session_rejects :
    (r : Redis) (c : Primitives) (u : Unicode) (settings : Settings) (s : r.Store) (db : Db)
    (proxy caller_hash : Text) (now : ℕ) (nonce : Text)
    → live_rows db proxy caller_hash now ≡ []
    → (d : Decision) × (s' : r.Store) × (resolve_from_db r c u settings s db proxy caller_hash now
          nonce
        ≡ ok (d, s'))
      × (d.action ≡ reject)
      × (d.candidate ≡ none)
      × (d.reject_status ≡ miss_status (had_session db proxy caller_hash))
unfolding resolve_from_db load_candidates candidates_of decide rejection
no_session_rejects r c u settings s db proxy caller_hash now nonce e = (
  decide settings db proxy caller_hash [],
  remember r c u settings s db proxy caller_hash now nonce [],
  rw e,
  refl,
  refl,
  refl,
)

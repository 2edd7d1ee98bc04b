-- ===== src/Routing/Fresh.antt =====
-- app/services/routing.py: where nothing is cached, the database decides.
use number_masking_service.Prelude.{ℕ, ◌≡◌, ◌∙◌, none, [], ◌∷◌, Text, arith}
use number_masking_service.Errors.{ok}
use number_masking_service.Unicode.{Unicode}
use number_masking_service.Settings.{Settings}
use number_masking_service.Phone.{normalize_e164}
use number_masking_service.Crypto.{Primitives, party_hash}
use number_masking_service.Db.{Db}
use number_masking_service.Cache.{Redis, cache_get_json, lookup_key}
use number_masking_service.Lookup.{Candidate, load_candidates}
use number_masking_service.Routing.{
  resolve_call, resolve_from_db, resolve_known, cached, or_raw, connection, decide, remember,
}

pub resolve_call-uncached :
    (r : Redis) (c : Primitives) (u : Unicode) (settings : Settings) (s : r.Store) (db : Db)
    (dialled caller : Text) (now : ℕ) (nonce proxy caller_e164 : Text)
    → normalize_e164 u none dialled ≡ ok proxy
    → normalize_e164 u none caller ≡ ok caller_e164
    → cache_get_json r s now
        (lookup_key proxy (party_hash c caller_e164 settings.party_hash_secret))
      ≡ none
    → resolve_call r c u settings s db dialled caller now nonce
      ≡ resolve_from_db r c u settings s db proxy
          (party_hash c caller_e164 settings.party_hash_secret)
          now
          nonce
unfolding resolve_call resolve_known cached or_raw
resolve_call-uncached r c u settings s db dialled caller now nonce proxy caller_e164 p q gone =
    ground (arith, p, q, gone)

-- A caller with one candidate is connected to it, where nothing is cached.
pub resolve_call-single :
    (r : Redis) (c : Primitives) (u : Unicode) (settings : Settings) (s : r.Store) (db : Db)
    (dialled caller : Text) (now : ℕ) (nonce proxy caller_e164 : Text) (x : Candidate)
    → normalize_e164 u none dialled ≡ ok proxy
    → normalize_e164 u none caller ≡ ok caller_e164
    → cache_get_json r s now
        (lookup_key proxy (party_hash c caller_e164 settings.party_hash_secret))
      ≡ none
    → load_candidates c settings db proxy (party_hash c caller_e164 settings.party_hash_secret) now
      ≡ ok (x ∷ [])
    → (s' : r.Store) × (resolve_call r c u settings s db dialled caller now nonce
        ≡ ok (connection proxy (party_hash c caller_e164 settings.party_hash_secret) x, s'))
unfolding resolve_from_db decide
resolve_call-single r c u settings s db dialled caller now nonce proxy caller_e164 x p q gone one =
    let hash = party_hash c caller_e164 settings.party_hash_secret in
    (
      remember r c u settings s db proxy hash now nonce (x ∷ []),
      resolve_call-uncached r c u settings s db dialled caller now nonce proxy caller_e164 p q gone
          ∙ rw one,
    )

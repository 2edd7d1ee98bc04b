-- ===== src/Api/Serializers.antt =====
-- app/api/serializers.py: what the interface shows of a session, of a call and of a number.
use number_masking_service.Prelude.{
  ℕ, ◌*◌, Option, List, [], ◌∷◌, Bool, true, false, ◌&&◌, ◌==◌, Text,
}
use number_masking_service.Prelude.Sorts.{sort}
use number_masking_service.Errors.{Result, ok, ◌>>=◌}
use number_masking_service.Crypto.{Primitives, decrypt_e164}
use number_masking_service.Phone.{mask_e164}
use number_masking_service.Settings.{Settings, hour}
use number_masking_service.Journal.{Call, CallStatus, Direction}
use number_masking_service.Db.{
  Number, NumberStatus, Session, SessionStatus, SessionParty, Role, side_a, side_b,
}
use number_masking_service.Numbers.{is_cooling}

pub record PartyOut : Type 0 where
  pub role : Role
  pub number_masked : Text

pub record SessionOut : Type 0 where
  pub session_id : ℕ
  pub proxy_number : Text
  pub extension_code : Option Text
  pub status : SessionStatus
  pub external_id : Option Text
  pub max_calls : Option ℕ
  pub created_at : ℕ
  pub expires_at : ℕ
  pub closed_at : Option ℕ
  pub parties : List PartyOut
  pub promoted_session_ids : List ℕ

pub record CallOut : Type 0 where
  pub id : ℕ
  pub session_id : Option ℕ
  pub direction : Option Direction
  pub proxy_number : Text
  pub started_at : ℕ
  pub answered_at : Option ℕ
  pub ended_at : Option ℕ
  pub duration_sec : Option ℕ
  pub status : CallStatus
  pub hangup_cause : Option Text

pub record NumberOut : Type 0 where
  pub e164 : Text
  pub status : NumberStatus
  pub provider : Option Text
  pub active_sessions : ℕ
  pub released_at : Option ℕ
  pub in_cooldown : Bool

-- The order of the roles, which are the texts "a" and "b".
abbrev pub role_le : Role → Role → Bool
role_le side_b side_a = false
role_le _ _ = true

unfoldable pub party_out : Primitives → Text → SessionParty → Result PartyOut
party_out c key p = do
  number ← decrypt_e164 c p.party_e164_enc key
  ok (record { role = p.role; number_masked = mask_e164 number })

unfoldable pub parties_out : Primitives → Text → List SessionParty → Result (List PartyOut)
unfolding party_out
parties_out c key [] = ok []
parties_out c key (p ∷ ps) = do
  shown ← party_out c key p
  rest ← parties_out c key ps
  ok (shown ∷ rest)

-- `session_out` of the session's rows.
unfoldable pub session_out :
    Primitives → Text → Text → Session → List SessionParty → List ℕ → Result SessionOut
unfolding parties_out
session_out c key e164 s parties promoted = do
  shown ← parties_out c key (sort (λ p q. role_le p.role q.role) parties)
  ok (record {
    session_id = s.id;
    proxy_number = e164;
    extension_code = s.ext_code;
    status = s.status;
    external_id = s.external_id;
    max_calls = s.max_calls;
    created_at = s.created_at;
    expires_at = s.expires_at;
    closed_at = s.closed_at;
    parties = shown;
    promoted_session_ids = promoted;
  })

unfoldable pub call_out : Call → CallOut
call_out call = record {
  id = call.id;
  session_id = call.session_id;
  direction = call.direction;
  proxy_number = call.proxy_e164;
  started_at = call.started_at;
  answered_at = call.answered_at;
  ended_at = call.ended_at;
  duration_sec = call.duration_sec;
  status = call.status;
  hangup_cause = call.hangup_cause;
}

unfoldable pub number_out : Settings → ℕ → Number → ℕ → NumberOut
number_out settings now number active_sessions = record {
  e164 = number.e164;
  status = number.status;
  provider = number.provider;
  active_sessions = active_sessions;
  released_at = number.released_at;
  in_cooldown =
      (active_sessions == 0)
      && is_cooling (settings.number_cooldown_hours * hour) now number.released_at;
}

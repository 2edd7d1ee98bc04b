-- ===== src/Examples/Clients.antt =====
-- Trials of the theorems on the client of Asterisk and on the HTTP interface.
use number_masking_service.Prelude.{◌≡◌, refl, [], ◌∷◌, ◌++◌, codes, arith}
use number_masking_service.Crypto.{decrypt_e164}
use number_masking_service.Db.{SessionParty}
use number_masking_service.Client.{refused, broken, closed, pauses}
use number_masking_service.Client.Backoff.{paused, pauses_lem}
use number_masking_service.Api.Serializers.{session_out}
use number_masking_service.Api.Masking.{Alike, session_out-masked}
use number_masking_service.Examples.{toy, nonce}
use number_masking_service.Examples.Calls.{talk, alice_row, bob_row, proxy}

pauses_lem_example :
    pauses 1 30 1 (refused ∷ refused ∷ broken ∷ closed ∷ refused ∷ [])
    ≡ paused 1 30 0 (refused ∷ refused ∷ broken ∷ closed ∷ refused ∷ [])
pauses_lem_example =
    pauses_lem 1 30 (refused ∷ refused ∷ broken ∷ closed ∷ refused ∷ []) (omega arith)

-- Alice with another number that is masked like hers.
abbrev other_alice : SessionParty
other_alice = record alice_row { party_e164_enc = nonce ++ 0 ∷ codes "+7701999994567" }

alice-Alike : Alike toy [] alice_row other_alice
unfolding decrypt_e164
alice-Alike = record {
  role = refl;
  front = codes "+7701";
  hidden = codes "123";
  hidden' = codes "99999";
  back = codes "4567";
  front_five = refl;
  back_four = refl;
  number = refl;
  number' = refl;
}

bob-Alike : Alike toy [] bob_row bob_row
unfolding decrypt_e164
bob-Alike = record {
  role = refl;
  front = codes "+7701";
  hidden = codes "765";
  hidden' = codes "765";
  back = codes "4321";
  front_five = refl;
  back_four = refl;
  number = refl;
  number' = refl;
}

session_out-masked_example :
    session_out toy [] proxy talk (alice_row ∷ bob_row ∷ []) []
    ≡ session_out toy [] proxy talk (other_alice ∷ bob_row ∷ []) []
session_out-masked_example =
    session_out-masked toy [] proxy talk (alice_row ∷ bob_row ∷ []) (other_alice ∷ bob_row ∷ []) []
      (alice-Alike, (bob-Alike, tt))

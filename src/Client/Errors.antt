-- ===== src/Client/Errors.antt =====
-- app/ari/client.py: which answers of Asterisk count as errors.
use number_masking_service.Prelude.{
  ◌≡◌, ◌↔◌, refl, subst, sym, if◌then◌else◌, Bool, true, false, not, ◌&&◌, ◌==◌, leb, Option, none,
  some, arith, if_induction, ◌≢◌, Bool-cases, inl, inr,
}
use number_masking_service.Stasis.{Await, destroy_bridge, play, raised}
use number_masking_service.Prelude.{Text}
use number_masking_service.Client.{
  Json, Response, Delivery, undelivered, delivered, Outcome, gave, ari_error, outcome, play_reply,
  id_reply, reply_of, http_not_found,
}

abbrev pub is_removal : Await → Bool
is_removal (destroy_bridge b) = true
is_removal _ = false

-- A request fails that is not delivered, or that is answered by an error, but for the bridge that is
-- gone already.
abbrev pub fails : {j : Json} → Await → Delivery j → Bool
fails c undelivered = true
fails c (delivered r) =
    leb 400 r.status_code && not (is_removal c && (r.status_code == http_not_found))

id_reply_lem : (t : Option Text) → id_reply t ≢ raised
unfolding id_reply
id_reply_lem none h = cc
id_reply_lem (some t) h = cc

-- An answer that is not an error resumes the coroutine normally, whatever its JSON is.
play_gave : (j : Json) (v : Option j.Value) → play_reply {j = j} (gave v) ≢ raised
unfolding play_reply
play_gave j none h = cc
play_gave j (some v) h = id_reply_lem (j.id v) h

-- A response below the threshold is no error.
good_gave :
    {j : Json} (r : Response j)
    → leb 400 r.status_code ≡ false
    → (v : Option j.Value) × (outcome (delivered r) ≡ gave v)
unfolding outcome
good_gave {j} r h =
    subst (λ b. (v : Option j.Value) × ((if b then ari_error r.status_code else below) ≡ gave v))
      (sym h) shown
  where
    below : Outcome j
    below =
        if r.status_code == 204 then gave none else if r.has_content then gave r.json else gave none

    shown : (v : Option j.Value) × (below ≡ gave v)
    shown =
        if_induction (λ (o : Outcome j). (v : Option j.Value) × (o ≡ gave v)) (r.status_code == 204)
          (λ p. (none, refl))
          (λ p.
            if_induction (λ (o : Outcome j). (v : Option j.Value) × (o ≡ gave v)) r.has_content
              (λ q. (r.json, refl)) (λ q. (none, refl)))

-- A coroutine that awaits a request is resumed with an error exactly if the request was not delivered
-- or was answered by a status from 400 on, but for the removal of a bridge that Asterisk does not know
-- any more, which counts as done.
pub reply_of_lem :
    {j : Json} (c : Await) (d : Delivery j) → (reply_of c d ≡ raised) ↔ (fails c d ≡ true)
unfolding reply_of
reply_of_lem (play c m) undelivered = (λ h. refl, λ h. refl)
reply_of_lem {j} (play c m) (delivered r) = (
  λ h. elim (Bool-cases (leb 400 r.status_code)) [
    | inl bad ↦ ground arith
    | inr good ↦ let (v, same) = good_gave r good in elim (play_gave j v (rw same at h)) [ ]
  ],
  λ h. ground arith,
)
reply_of_lem (destroy_bridge b) undelivered = ground arith
reply_of_lem (destroy_bridge b) (delivered r) = ground arith
reply_of_lem _ undelivered = ground arith
reply_of_lem _ (delivered r) = ground arith

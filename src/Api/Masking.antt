-- ===== src/Api/Masking.antt =====
-- app/api/serializers.py: the interface does not tell numbers apart that are masked alike.
use number_masking_service.Prelude.{
  ℕ, ◌≡◌, refl, sym, ap, ap₂, if◌then◌else◌, ◌∙◌, List, [], ◌∷◌, ◌++◌, Bool, true, false, Text,
  length,
}
use number_masking_service.Prelude.Sorts.{sort, insert}
use number_masking_service.Errors.{ok}
use number_masking_service.Crypto.{Primitives, decrypt_e164}
use number_masking_service.Phone.{mask_e164}
use number_masking_service.Phone.Mask.{mask_e164_hides}
use number_masking_service.Db.{Session, SessionParty}
use number_masking_service.Api.Serializers.{role_le, party_out, parties_out, session_out}

-- Two rows in the same role, whose numbers agree in the first five and the last four characters.
pub record Alike (c : Primitives) (key : Text) (p q : SessionParty) : Type 0 where
  pub role : p.role ≡ q.role
  pub front : Text
  pub hidden : Text
  pub hidden' : Text
  pub back : Text
  pub front_five : length front ≡ 5
  pub back_four : length back ≡ 4
  pub number : decrypt_e164 c p.party_e164_enc key ≡ ok (front ++ (hidden ++ back))
  pub number' : decrypt_e164 c q.party_e164_enc key ≡ ok (front ++ (hidden' ++ back))

-- Two lists of such rows.
abbrev pub AllAlike : Primitives → Text → List SessionParty → List SessionParty → Type 0
AllAlike c key [] [] = Unit
AllAlike c key (p ∷ ps) (q ∷ qs) = Alike c key p q × AllAlike c key ps qs
AllAlike c key _ _ = ⊥

abbrev by_role : SessionParty → SessionParty → Bool
by_role p q = role_le p.role q.role

module _ (c : Primitives) (key : Text) where
  party_out-Alike : (p q : SessionParty) → Alike c key p q → party_out c key p ≡ party_out c key q
  unfolding party_out
  party_out-Alike p q h =
      rw (h.number, h.number')
        (ap (λ m. ok (record { role = p.role; number_masked = m }))
            (mask_e164_hides h.front h.hidden h.back h.front_five h.back_four)
          ∙ (ap (λ m. ok (record { role = p.role; number_masked = m }))
                (sym (mask_e164_hides h.front h.hidden' h.back h.front_five h.back_four))
              ∙ ap
                  (λ r. ok (record {
                    role = r;
                    number_masked = mask_e164 (h.front ++ (h.hidden' ++ h.back));
                  }))
                  h.role))

  parties_out-Alike :
      (ps qs : List SessionParty)
      → AllAlike c key ps qs
      → parties_out c key ps ≡ parties_out c key qs
  unfolding parties_out
  parties_out-Alike [] [] h = refl
  parties_out-Alike (p ∷ ps) (q ∷ qs) h =
      rw (party_out-Alike p q h.0, parties_out-Alike ps qs h.1) refl
  parties_out-Alike [] (q ∷ qs) h = elim h [ ]
  parties_out-Alike (p ∷ ps) [] h = elim h [ ]

  AllAlike-if :
      (b d : Bool) (this that this' that' : List SessionParty)
      → b ≡ d
      → AllAlike c key this this'
      → AllAlike c key that that'
      → AllAlike c key (if b then this else that) (if d then this' else that')
  AllAlike-if true true this that this' that' h k l = k
  AllAlike-if false false this that this' that' h k l = l
  AllAlike-if true false this that this' that' h k l = cc
  AllAlike-if false true this that this' that' h k l = cc

  insert-Alike :
      (x y : SessionParty) (ps qs : List SessionParty)
      → Alike c key x y
      → AllAlike c key ps qs
      → AllAlike c key (insert by_role x ps) (insert by_role y qs)
  unfolding insert
  insert-Alike x y [] [] a h = (a, tt)
  insert-Alike x y (p ∷ ps) (q ∷ qs) a h =
      AllAlike-if (by_role x p) (by_role y q) _ _ _ _ (ap₂ role_le a.role h.0.role) (a, (h.0, h.1))
        (h.0, insert-Alike x y ps qs a h.1)
  insert-Alike x y [] (q ∷ qs) a h = elim h [ ]
  insert-Alike x y (p ∷ ps) [] a h = elim h [ ]

  sort-Alike :
      (ps qs : List SessionParty)
      → AllAlike c key ps qs
      → AllAlike c key (sort by_role ps) (sort by_role qs)
  unfolding sort
  sort-Alike [] [] h = tt
  sort-Alike (p ∷ ps) (q ∷ qs) h = insert-Alike p q _ _ h.0 (sort-Alike ps qs h.1)
  sort-Alike [] (q ∷ qs) h = elim h [ ]
  sort-Alike (p ∷ ps) [] h = elim h [ ]

-- What the interface shows of a session does not depend on the hidden part of the numbers of its
-- parties: rows whose numbers agree in the first five and the last four characters are shown alike,
-- however many characters stand between them.
pub session_out-masked :
    (c : Primitives) (key e164 : Text) (s : Session) (parties others : List SessionParty)
    (promoted : List ℕ)
    → AllAlike c key parties others
    → session_out c key e164 s parties promoted ≡ session_out c key e164 s others promoted
unfolding session_out
session_out-masked c key e164 s parties others promoted h =
    rw (parties_out-Alike c key _ _ (sort-Alike c key parties others h)) refl

-- ===== src/Routing/Asked.antt =====
-- app/services/routing.py: what a caller hears whose candidates hold one session with a PIN.
use number_masking_service.Prelude.{
  ◌≡◌, refl, sym, ap, some, List, [], ◌∷◌, false, true, Text, is_empty, All-filter_of, here, there,
  In-filter, filter, ◌⊎◌, inl, inr,
}
use number_masking_service.Settings.{Settings}
use number_masking_service.Db.{Db}
use number_masking_service.Lookup.{Candidate, has_code, select_by_code}
use number_masking_service.Lookup.Chosen.{Holds, Holds-selected}
use number_masking_service.Routing.{Decision, decide, ask, connection, question}

-- The caller is connected to the session, or asked for a PIN, which selects the session among the
-- candidates that are offered.
pub LeadsTo : Settings → Text → Text → Text → Candidate → Decision → Type 0
LeadsTo settings proxy h code mine d =
    (d ≡ connection proxy h mine)
    ⊎ ((offered : List Candidate) × (d ≡ question proxy h offered settings.sound_enter_code)
        × (select_by_code offered code ≡ some mine))

module _ (settings : Settings) (proxy h code : Text) (mine : Candidate)
    (some_code : is_empty code ≡ false) (coded : mine.ext_code ≡ some code) where
  carries : has_code mine ≡ true
  unfolding has_code
  carries = rw (coded, some_code)

  ask-LeadsTo :
      (xs : List Candidate)
      → Holds code mine xs
      → LeadsTo settings proxy h code mine (ask settings proxy h xs)
  unfolding LeadsTo ask
  ask-LeadsTo [] held = elim (held.within) [ ]
  ask-LeadsTo (x ∷ xs) held =
      inr (x ∷ xs, refl, Holds-selected code mine (x ∷ xs) some_code coded held)

  offered-Holds : (cs : List Candidate) → Holds code mine cs → Holds code mine (filter has_code cs)
  offered-Holds cs held = record {
    within = In-filter has_code cs mine held.within carries;
    alone = All-filter_of _ has_code cs held.alone;
  }

  -- The verdict on candidates that hold the session leads to it.
  pub decide-LeadsTo :
      (db : Db) (cs : List Candidate)
      → Holds code mine cs
      → LeadsTo settings proxy h code mine (decide settings db proxy h cs)
  unfolding decide LeadsTo
  decide-LeadsTo db [] held = elim (held.within) [ ]
  decide-LeadsTo db (x ∷ []) held = elim (held.within) [
    | here e ↦ inl (ap (connection proxy h) (sym e))
    | there m ↦ elim m [ ]
  ]
  decide-LeadsTo db (x ∷ y ∷ more) held =
      ask-LeadsTo (filter has_code (x ∷ y ∷ more)) (offered-Holds (x ∷ y ∷ more) held)

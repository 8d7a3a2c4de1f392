-- ===== src/Assessment/Acknowledgement.antt =====
-- `StackAssessment.confirmation_token` and `raise_if_blocked_or_unacknowledged` of
-- landoapi/transplants.py.
use lando_api.Common.{
  ==-refl, ==-eq, inl, string_eq, Bool-cases, option_eq, ◌==◌, inr, ◌⊎◌, not, ◌↔◌, refl,
  if◌then◌else◌, ◌≡◌, Option, is_empty, String, List, none, some, [], ◌∷◌, true, false,
}
use lando_api.Assessment.Checks.{RevisionWarning}
use lando_api.Common.Exec.{raised, problem, returned, Outcome}

-- `digest` is the hash of the sorted warnings in JSON.
module _ (digest : List RevisionWarning → String) where
  unfoldable pub confirmation_token : List RevisionWarning → Option String
  confirmation_token [] = none
  confirmation_token (w ∷ warnings) = some (digest (w ∷ warnings))

  -- The token of the request is not that of the warnings.
  unacknowledged : Option String → String
  unacknowledged none = "Unacknowledged Warnings"
  unacknowledged (some token) = "Acknowledged Warnings Have Changed"

  unfoldable pub raise_if_blocked_or_unacknowledged :
      List String → List RevisionWarning → Option String → Outcome (Unit {0})
  unfolding confirmation_token unacknowledged
  raise_if_blocked_or_unacknowledged blockers warnings token =
      if not (is_empty blockers)
      then raised (problem 400 "Landing is Blocked")
      else if confirmation_token warnings == token
      then returned tt
      else raised (problem 400 (unacknowledged token))

  is_empty-eq : (blockers : List String) → is_empty blockers ≡ true → blockers ≡ []
  is_empty-eq [] e = refl
  is_empty-eq (b ∷ bs) e = cc

  -- An assessment lets a request pass exactly if it has no blockers and the request carries the token
  -- of its warnings, which is None if there are no warnings; else it raises a problem with status 400.
  pub raise_if_blocked_or_unacknowledged-passes :
      (blockers : List String) (warnings : List RevisionWarning) (token : Option String)
      → ((raise_if_blocked_or_unacknowledged blockers warnings token ≡ returned tt)
          ↔ ((blockers ≡ []) × (confirmation_token warnings ≡ token)))
        × ((raise_if_blocked_or_unacknowledged blockers warnings token ≡ returned tt)
            ⊎ ((title : String) × (raise_if_blocked_or_unacknowledged blockers warnings token
                  ≡ raised (problem 400 title))))
  unfolding raise_if_blocked_or_unacknowledged unacknowledged
  raise_if_blocked_or_unacknowledged-passes (b ∷ bs) warnings token =
      ((λ e. cc, λ h. cc), inr ("Landing is Blocked", refl))
  raise_if_blocked_or_unacknowledged-passes [] warnings token =
      elim (Bool-cases (confirmation_token warnings == token)) [
        | inl t ↦ (
          (λ e. (refl, ==-eq (confirmation_token warnings) token t), λ h. rw t refl),
          inl (rw t refl),
        )
        | inr f ↦ (
          (
            λ e.
                let e' : raised (problem 400 (unacknowledged token)) ≡ returned tt = rw f at e in
                absurd (cc),
            λ h.
                let t = ==-refl token in
                let f' : (token == token) ≡ false = rw h.1 at f in absurd (cc),
          ),
          inr ((unacknowledged token, rw f refl)),
        )
      ]

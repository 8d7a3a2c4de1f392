-- ===== src/Landing/Job/Transition.antt =====
-- `transition_status` of landing_job.py: what it changes, and that a refused call changes nothing.
use text.Mathlib.TextEquality.{eq_iff}
use lando_api.Common.{
  inl, inr, Bool-cases, ◌⊎◌, if◌then◌else◌, refl, not, false, ◌&&◌, some, Bool, Option-cases,
  String, true, [], ◌∷◌, map, arith, ◌≡◌, string_eq,
}
use lando_api.Landing.Job.{
  defer, cancel, land, fail, cancelled, deferred, failed, landed, actions, transition_status,
  Session, LandingJob, LandingJobAction, Kwargs, remove_one, same_items,
}
use lando_api.Common.Exec.{Error, returned, value_error, raised}

-- A call is accepted with exactly the one parameter that the action requires.
module _ (key : String) where
  same_items_single :
      (kwargs : Kwargs)
      → same_items (key ∷ []) (map (λ p. p.0) kwargs) ≡ true
      → (v : String) × (kwargs ≡ (key, v) ∷ [])
  same_items_single [] h = cc
  same_items_single ((k, v) ∷ []) h = (v, ground (arith, eq_iff key k))
  same_items_single ((k, v) ∷ (j, w) ∷ rest) h =
      absurd (ground (arith, eq_iff key k, Option-cases (remove_one key (j ∷ map (λ p. p.0) rest))))

same_items_empty : (kwargs : Kwargs) → same_items [] (map (λ p. p.0) kwargs) ≡ true → kwargs ≡ []
same_items_empty [] h = refl
same_items_empty (p ∷ rest) h = cc

-- What an accepted call leaves, by the action and the value of its parameter.
abbrev pub moved : LandingJobAction → String → LandingJob → LandingJob
moved land v job = record job { status = some landed; landed_commit_id = v }
moved fail v job = record job { status = some failed; error = v }
moved defer v job = record job { status = some deferred; error = v }
moved cancel v job = record job { status = some cancelled }

abbrev pub saved : Bool → LandingJob → Session → Session
saved commit job s = record { job = job; row = if commit then job else s.row }

-- The parameters of a call by its action: the caller gives one value, or none for a cancellation.
abbrev pub kwargs_of : LandingJobAction → String → Kwargs
kwargs_of land v = ("commit_id", v) ∷ []
kwargs_of fail v = ("message", v) ∷ []
kwargs_of defer v = ("message", v) ∷ []
kwargs_of cancel v = []

module _ (commit has_db : Bool) (s : Session) where
  pub transition_status-accepts :
      (action : LandingJobAction) (v : String)
      → (commit && not has_db) ≡ false
      → transition_status action commit has_db (kwargs_of action v) s
        ≡ (returned tt, saved commit (moved action v s.job) s)
  unfolding transition_status
  transition_status-accepts land v h = ground arith
  transition_status-accepts fail v h = ground arith
  transition_status-accepts defer v h = ground arith
  transition_status-accepts cancel v h = ground arith

  kwargs_of_accepted :
      (action : LandingJobAction) (kwargs : Kwargs)
      → same_items (actions action).required_params (map (λ p. p.0) kwargs) ≡ true
      → (v : String) × (kwargs ≡ kwargs_of action v)
  kwargs_of_accepted land kwargs h = same_items_single "commit_id" kwargs h
  kwargs_of_accepted fail kwargs h = same_items_single "message" kwargs h
  kwargs_of_accepted defer kwargs h = same_items_single "message" kwargs h
  kwargs_of_accepted cancel kwargs h = ("", same_items_empty kwargs h)

  refused :
      (action : LandingJobAction) (kwargs : Kwargs)
      → same_items (actions action).required_params (map (λ p. p.0) kwargs) ≡ false
      → transition_status action commit has_db kwargs s ≡ (raised (value_error "Missing params"), s)
  unfolding transition_status
  refused land kwargs h = ground arith
  refused fail kwargs h = ground arith
  refused defer kwargs h = ground arith
  refused cancel kwargs h = ground arith

  no_db :
      (action : LandingJobAction) (v : String)
      → (commit && not has_db) ≡ true
      → (message : String) × (transition_status action commit has_db (kwargs_of action v) s
          ≡ (raised (value_error message), s))
  unfolding transition_status
  no_db land v h = ("db is required when commit is set to True", ground arith)
  no_db fail v h = ("db is required when commit is set to True", ground arith)
  no_db defer v h = ("db is required when commit is set to True", ground arith)
  no_db cancel v h = ("db is required when commit is set to True", ground arith)

  -- The three ways that a call ends.
  call_cases :
      (action : LandingJobAction) (kwargs : Kwargs)
      → ((v : String) × (kwargs ≡ kwargs_of action v)
          × ((commit && not has_db) ≡ false)
          × (transition_status action commit has_db kwargs s
              ≡ (returned tt, saved commit (moved action v s.job) s)))
        ⊎ ((message : String) × (transition_status action commit has_db kwargs s
              ≡ (raised (value_error message), s)))
  call_cases action kwargs =
      elim (Bool-cases (same_items (actions action).required_params (map (λ p. p.0) kwargs))) [
        | inr other ↦ inr ("Missing params", refused action kwargs other)
        | inl same ↦
            let (v, e) = kwargs_of_accepted action kwargs same in
            elim (Bool-cases (commit && not has_db)) [
              | inl missing ↦ inr (rw e (no_db action v missing))
              | inr fine ↦ inl (v, e, fine, rw e (transition_status-accepts action v fine))
            ]
      ]

-- A call of `transition_status` that returns was given the one parameter of its action (none for
-- a cancellation) and a database if it was to commit. It sets the status of the action; a failure
-- and a deferral write the message to `error`, a landing writes the commit, and no other field
-- changes. The committed row is the new object if the call was to commit, and the old row if not.
pub transition_status-returned :
    (action : LandingJobAction) (commit has_db : Bool) (kwargs : Kwargs) (s s' : Session)
    → transition_status action commit has_db kwargs s ≡ (returned tt, s')
    → (v : String) × (kwargs ≡ kwargs_of action v)
      × ((commit && not has_db) ≡ false)
      × (s' ≡ saved commit (moved action v s.job) s)
transition_status-returned action commit has_db kwargs s s' h =
    elim (call_cases commit has_db s action kwargs) [
      | inl (v, given, fine, e) ↦ (v, given, fine, cc)
      | inr (message, e) ↦ absurd (cc)
    ]

-- A call of `transition_status` that raises raises a ValueError and has changed nothing, neither
-- the object nor the committed row.
pub transition_status-raised :
    (action : LandingJobAction) (commit has_db : Bool) (kwargs : Kwargs) (s s' : Session)
    {e : Error}
    → transition_status action commit has_db kwargs s ≡ (raised e, s')
    → (s' ≡ s) × ((message : String) × (e ≡ value_error message))
transition_status-raised action commit has_db kwargs s s' h =
    elim (call_cases commit has_db s action kwargs) [
      | inl (v, given, fine, e) ↦ absurd (cc)
      | inr (message, e) ↦ (cc, (message, cc))
    ]

-- ===== src/Assessment/Checks.antt =====
-- `run_landing_checks` of landoapi/transplants.py, with the checks of the whole stack.
pub mod Sound
mod Examples
pub mod Removal
use lando_api.Common.{
  nat_eq, is_some, string_eq, option_eq, ◌&&◌, not, ◌==◌, map, ◌++◌, elem, any, Bool, if◌then◌else◌,
  Option, List, String, ℕ, none, some, [], ◌∷◌, true, false,
}
use lando_api.Common.Exec.{
  ◌>>>◌, when, pure, returned, gets, modify, lift, Outcome, Exec, ◌>>=◌, ◌>>◌,
}
use lando_api.Assessment.State.{
  find_diff, or_key_error, look_up_if_set, LandingAssessment, PhabDiff, StackState, PhabRevision,
  Progress, Digraph,
}
use lando_api.Landing.Job.{has_revision, status_eq, in_progress, deferred, submitted, LandingJob}
use lando_api.Assessment.Blockers.{
  blocker_open_ancestor, blocker_try_task_config, blocker_prevent_symlinks,
  blocker_revision_data_classification, blocker_uplift_approval, blocker_diff_author_is_known,
  blocker_author_planned_changes, blocker_latest_diffs, blocker_closed_revisions,
  blocker_open_parents, blocker_unsupported_repo, blocker_user_scm_level, is_set, Reason,
}
use lando_api.Landing.Repo.{Repo}

pub record RevisionWarning : Type 0 where
  pub i : ℕ
  pub display : String
  pub revision_id : String
  pub details : String
  pub articulated : Bool

-- The assessment so far, with what the checks change.
pub record Run (G : Type 0) : Type 0 where
  pub progress : Progress G
  pub blockers : List String
  pub warnings : List RevisionWarning

-- A job in one of these statuses that lands one of the revisions. In SQL, a null status is in no
-- list.
is_requested : List ℕ → LandingJob → Bool
is_requested ids job =
    elem job.status (some submitted ∷ some deferred ∷ some in_progress ∷ [])
    && has_revision (map some ids) job

-- The repository of the first revisions that has one, and whether another follows.
single_repo : Option String → List (PhabRevision × PhabDiff) → Option (Option String)
single_repo found [] = some found
single_repo found ((r, d) ∷ rest) =
    let next = single_repo r.repository_phid rest in
    let same = single_repo found rest in
    if not (is_set found) then next else if r.repository_phid == found then same else none

module _ {G : Type 0} (D : Digraph G) (s : StackState G) where
  path_of : LandingAssessment → List String
  path_of landing = map (λ p. p.0) landing.landing_path_by_phid

  unfoldable pub blocker_stack_landing_path_valid : (landable : G) → Reason
  unfolding path_of
  blocker_stack_landing_path_valid landable = elim s.landing_assessment [
    | none ↦ none
    | some landing ↦
        if D.is_simple_path landable (path_of landing)
        then none
        else some "The requested set of revisions is not a valid stack."
  ]

  unfoldable pub blocker_landing_already_requested : Reason
  unfolding is_requested
  blocker_landing_already_requested =
      if any (is_requested (map (λ r. r.id) s.revisions)) s.jobs
      then some "A landing for revisions in this stack is already in progress."
      else none

  unfoldable pub blocker_user_no_auth0_email : Reason
  blocker_user_no_auth0_email = elim s.landing_assessment [
    | none ↦ none
    | some landing ↦
        if is_set landing.email
        then none
        else some "You do not have a Mozilla verified email address."
  ]

  -- The reason, and the repository that the check sets if it gives none.
  repo_chosen : Option (Option String) → Reason × Option Repo
  repo_chosen none = (some "Landing path contains multiple repositories.", none)
  repo_chosen (some phid) =
      if is_set phid
      then (none, look_up_if_set phid s.landable_repos)
      else (some "Landing path has no repository specified.", none)

  -- The prefix of a path of the same length.
  is_prefix : (path longer : List String) → Bool
  is_prefix [] longer = true
  is_prefix (p ∷ path) [] = false
  is_prefix (p ∷ path) (q ∷ longer) = p == q && is_prefix path longer

  unfoldable pub blocker_stack_landing_path_landable : (landable : G) → Reason
  unfolding path_of is_prefix
  blocker_stack_landing_path_landable landable = elim s.landing_assessment [
    | none ↦ none
    | some landing ↦
        if any (is_prefix (path_of landing)) (D.landable_paths landable)
        then none
        else some "The requested set of revisions are not landable."
  ]

  -- `assessment.blockers.append(reason)`, if there is a reason.
  unfoldable pub block : Reason → Exec (Run G) Unit
  block none = pure tt
  block (some reason) = modify (λ r. record r { blockers = r.blockers ++ reason ∷ [] })

  unfoldable pub set_landing_repo : Option Repo → Exec (Run G) Unit
  set_landing_repo repo =
      modify (λ r. record r { progress = record r.progress { landing_repo = repo } })

  unfoldable pub settle_repo : Reason × Option Repo → Exec (Run G) Unit
  settle_repo (none, repo) = set_landing_repo repo
  settle_repo (some why, repo) = block (some why)

  unfoldable pub choose_repo : Option LandingAssessment → Exec (Run G) Unit
  unfolding repo_chosen single_repo
  choose_repo none = pure tt
  choose_repo (some landing) = settle_repo (repo_chosen (single_repo none landing.to_land))

  unfoldable pub blocker_single_landing_repo : Exec (Run G) Unit
  blocker_single_landing_repo = choose_repo s.landing_assessment

  -- `STACK_BLOCKER_CHECKS`
  unfoldable pub run_stack_checks : Exec (Run G) Unit
  run_stack_checks = do
    landable ← gets (λ r. r.progress.landable_stack)
    block (blocker_stack_landing_path_valid landable)
    block blocker_landing_already_requested
    block blocker_user_no_auth0_email
    blocker_single_landing_repo

  -- `assessment_blocking_pairs`
  unfoldable pub is_assessed : String → Bool
  is_assessed phid = elim s.landing_assessment [
    | none ↦ any (λ r. r.phid == phid) s.revisions
    | some landing ↦ any (λ p. p.0.phid == phid) landing.to_land
  ]

  -- `REVISION_BLOCKER_CHECKS`, in their order.
  unfoldable pub revision_blocker_checks : PhabRevision → PhabDiff → List (G → Outcome Reason)
  revision_blocker_checks revision diff =
      (λ _. returned (blocker_user_scm_level D s revision))
      ∷ (λ _. returned (blocker_unsupported_repo D s revision))
      ∷ (λ landable. blocker_open_parents D s landable revision)
      ∷ (λ _. returned (blocker_closed_revisions D s revision))
      ∷ (λ _. blocker_latest_diffs D s revision)
      ∷ (λ _. returned (blocker_author_planned_changes D s revision))
      ∷ (λ _. returned (blocker_diff_author_is_known diff))
      ∷ (λ _. blocker_uplift_approval D s revision)
      ∷ (λ _. returned (blocker_revision_data_classification D s revision))
      ∷ (λ _. blocker_prevent_symlinks D s diff)
      ∷ (λ _. blocker_try_task_config D s diff)
      ∷ (λ landable. returned (blocker_open_ancestor D s landable revision))
      ∷ []

  unfoldable pub remove_blocked : String → String → Progress G → Progress G
  remove_blocked phid reason p =
      if D.has_node phid p.landable_stack
      then record p {
        landable_stack = D.remove_node phid p.landable_stack;
        blocked = p.blocked ++ (phid, reason) ∷ [];
      }
      else p

  -- What the loop does with the reason of one check.
  unfoldable pub note_reason : String → Reason → Exec (Run G) Unit
  unfolding remove_blocked
  note_reason phid none = pure tt
  note_reason phid (some reason) = do
    when (is_assessed phid) (block (some reason))
    modify (λ r. record r { progress = remove_blocked phid reason r.progress })

  unfoldable pub run_checks : String → List (G → Outcome Reason) → Exec (Run G) Unit
  run_checks phid [] = pure tt
  run_checks phid (check ∷ checks) = do
    landable ← gets (λ r. r.progress.landable_stack)
    reason ← lift (check landable)
    note_reason phid reason
    run_checks phid checks

  unfoldable pub run_revision_checks : List (PhabRevision × PhabDiff) → Exec (Run G) Unit
  run_revision_checks [] = pure tt
  run_revision_checks ((revision, diff) ∷ pairs) = do
    run_checks revision.phid (revision_blocker_checks revision diff)
    run_revision_checks pairs

  -- `revision_check_pairs`
  unfoldable pub revision_check_pairs : List PhabRevision → Outcome (List (PhabRevision × PhabDiff))
  revision_check_pairs [] = returned []
  revision_check_pairs (r ∷ rs) =
      or_key_error r.diff_phid (find_diff r.diff_phid s.diffs) >>> λ diff.
      revision_check_pairs rs >>> λ pairs. returned ((r, diff) ∷ pairs)

  -- `warning_checks` is what the `WARNING_CHECKS` find for one revision.
  module _ (warning_checks : PhabRevision → PhabDiff → Outcome (List RevisionWarning)) where
    unfoldable pub run_warning_checks : List (PhabRevision × PhabDiff) → Exec (Run G) Unit
    run_warning_checks [] = pure tt
    run_warning_checks ((revision, diff) ∷ pairs) = do
      found ← lift (warning_checks revision diff)
      when (is_assessed revision.phid) (modify (λ r. record r { warnings = r.warnings ++ found }))
      run_warning_checks pairs

    unfoldable pub run_landing_checks : Exec (Run G) Unit
    run_landing_checks = do
      run_stack_checks
      pairs ← lift (revision_check_pairs s.revisions)
      run_revision_checks pairs
      run_warning_checks pairs
      landable ← gets (λ r. r.progress.landable_stack)
      block (blocker_stack_landing_path_landable landable)

-- ===== src/Assessment/Checks/Examples.antt =====
-- The checks of a small stack.
use lando_api.Common.{refl, ◌⊎◌, String, ◌↔◌, List, ◌≡◌, none, some, [], ◌∷◌}
use lando_api.Assessment.Checks.{
  Run, set_landing_repo, settle_repo, remove_blocked, choose_repo, is_assessed,
  blocker_single_landing_repo, block, blocker_stack_landing_path_landable,
  blocker_stack_landing_path_valid, blocker_user_no_auth0_email, blocker_landing_already_requested,
  RevisionWarning, revision_blocker_checks, run_warning_checks, run_revision_checks,
  run_stack_checks, note_reason, revision_check_pairs, run_checks, run_landing_checks,
}
use lando_api.Assessment.State.{
  look_up_if_set, look_up, find_revision, PhabDiff, find_diff, PhabRevision,
}
use lando_api.Assessment.Acknowledgement.{
  raise_if_blocked_or_unacknowledged-passes, confirmation_token, raise_if_blocked_or_unacknowledged,
}
use lando_api.Assessment.Samples.{
  fresh_run, diff, list_graph-IsDigraph, state, list_graph, revision,
}
use lando_api.Assessment.Checks.Removal.{run_checks-IsPruned, IsPruned}
use lando_api.Common.Exec.{problem, raised, returned, Outcome}
use lando_api.Assessment.Reviews.{collate_reviewer_attachments}
use lando_api.Assessment.Checks.Sound.{run_landing_checks_sound, HavePassed, PassedAlong}
use lando_api.Assessment.Blockers.{
  blocker_user_scm_level, blocker_unsupported_repo, blocker_open_parents, blocker_closed_revisions,
  blocker_latest_diffs, blocker_author_planned_changes, blocker_diff_author_is_known,
  blocker_uplift_approval, blocker_revision_data_classification, blocker_prevent_symlinks,
  blocker_try_task_config, blocker_open_ancestor,
}

abbrev no_warnings : PhabRevision → PhabDiff → Outcome (List RevisionWarning)
no_warnings _ _ = returned []

checks_pass : (run_landing_checks list_graph state no_warnings fresh_run).0 ≡ returned tt
unfolding run_landing_checks run_stack_checks run_revision_checks run_checks run_warning_checks
    revision_check_pairs revision_blocker_checks note_reason block blocker_stack_landing_path_valid
    blocker_landing_already_requested blocker_user_no_auth0_email blocker_single_landing_repo
    choose_repo settle_repo set_landing_repo blocker_stack_landing_path_landable is_assessed
    remove_blocked find_diff find_revision look_up look_up_if_set collate_reviewer_attachments
    blocker_open_ancestor blocker_try_task_config blocker_prevent_symlinks
    blocker_revision_data_classification blocker_uplift_approval blocker_diff_author_is_known
    blocker_author_planned_changes blocker_latest_diffs blocker_closed_revisions
    blocker_open_parents blocker_unsupported_repo blocker_user_scm_level
checks_pass = refl

nothing_blocks : (run_landing_checks list_graph state no_warnings fresh_run).1.blockers ≡ []
unfolding run_landing_checks run_stack_checks run_revision_checks run_checks run_warning_checks
    revision_check_pairs revision_blocker_checks note_reason block blocker_stack_landing_path_valid
    blocker_landing_already_requested blocker_user_no_auth0_email blocker_single_landing_repo
    choose_repo settle_repo set_landing_repo blocker_stack_landing_path_landable is_assessed
    remove_blocked find_diff find_revision look_up look_up_if_set collate_reviewer_attachments
    blocker_open_ancestor blocker_try_task_config blocker_prevent_symlinks
    blocker_revision_data_classification blocker_uplift_approval blocker_diff_author_is_known
    blocker_author_planned_changes blocker_latest_diffs blocker_closed_revisions
    blocker_open_parents blocker_unsupported_repo blocker_user_scm_level
nothing_blocks = refl

run_landing_checks_sound_example :
    ((r₁ : Run (List String)) × (run_stack_checks list_graph state fresh_run ≡ (returned tt, r₁))
      × PassedAlong list_graph state
          ((revision, diff) ∷ [])
          r₁
          (run_landing_checks list_graph state no_warnings fresh_run).1.progress.landable_stack)
    × (blocker_landing_already_requested list_graph state ≡ none)
    × (blocker_user_no_auth0_email list_graph state ≡ none)
    × (blocker_stack_landing_path_valid list_graph state ("PHID-DREV-1" ∷ []) ≡ none)
    × (blocker_stack_landing_path_landable list_graph state
          (run_landing_checks list_graph state no_warnings fresh_run).1.progress.landable_stack
        ≡ none)
unfolding revision_check_pairs find_diff
run_landing_checks_sound_example =
    run_landing_checks_sound list_graph state no_warnings ((revision, diff) ∷ []) fresh_run
      (run_landing_checks list_graph state no_warnings fresh_run).1 refl
      (λ i. (checks_pass i, (run_landing_checks list_graph state no_warnings fresh_run).1))
      nothing_blocks

run_checks-IsPruned_example :
    IsPruned list_graph list_graph-IsDigraph state "PHID-DREV-1"
      (HavePassed list_graph state fresh_run ((λ _. returned (some "Revision is closed.")) ∷ []))
      fresh_run
      (run_checks list_graph state "PHID-DREV-1"
        ((λ _. returned (some "Revision is closed.")) ∷ [])
        fresh_run).1
unfolding run_checks note_reason block is_assessed remove_blocked
run_checks-IsPruned_example =
    run_checks-IsPruned list_graph list_graph-IsDigraph state "PHID-DREV-1"
      ((λ _. returned (some "Revision is closed.")) ∷ []) fresh_run _ refl

raise_if_blocked_or_unacknowledged-passes_example :
    ((raise_if_blocked_or_unacknowledged (λ _. "token") [] [] (some "token") ≡ returned tt)
      ↔ ((◌≡◌ {A = List String} [] []) × (confirmation_token (λ _. "token") [] ≡ some "token")))
    × ((raise_if_blocked_or_unacknowledged (λ _. "token") [] [] (some "token") ≡ returned tt)
        ⊎ ((title : String) × (raise_if_blocked_or_unacknowledged
                (λ _. "token")
                []
                []
                (some "token")
              ≡ raised (problem 400 title))))
raise_if_blocked_or_unacknowledged-passes_example =
    raise_if_blocked_or_unacknowledged-passes (λ _. "token") [] [] (some "token")

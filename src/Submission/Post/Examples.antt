-- ===== src/Submission/Post/Examples.antt =====
-- A request that is granted, and tables on which it is landed.
use lando_api.Submission.Post.{tagged, post, Granted, create_job, rivals, grant}
use lando_api.Submission.Post.Adding.{post-Added, Added, Unchanged}
use lando_api.Submission.Post.Granting.{grant-Permits, Permits}
use lando_api.Common.{subst, ◌∙◌, sym, arith, ◌⊎◌, refl, ◌≡◌, [], some, ◌∷◌}
use lando_api.Submission.Samples.{requester, request, tables, services}
use lando_api.Landing.Samples.{example_repo}
use lando_api.Assessment.Samples.{diff, revision}
use lando_api.Submission.Tables.{
  revision_at, with_revisions, associated, revision_keys, revisions_query, loaded,
}
use lando_api.Common.Exec.{returned}
use lando_api.Submission.Tables.Shown.{Distinct}
use lando_api.Submission.Post.Unnoticed.{create_job-unnoticed}
use lando_api.Submission.Prepare.Built.{pairs_of}
use lando_api.Submission.Prepare.{tagged}
use lando_api.Submission.Post.Recorded.{post-Recorded, Records}
use lando_api.Submission.Request.{
  get_elem?, choose_middle_revision_from_path, revision_id_to_int, parse_landing_path,
  parse_transplant_request,
}
use lando_api.Submission.Assess.{find_stack_from_landing_path, assess}
use lando_api.Submission.Stack.{
  get_collated_reviewers, get_diffs_for_revision, gather_involved_phids, involved_in, set_of,
  get_landable_repos_for_revision_data, get_parsed_diffs, build_stack_assessment_state,
  build_stack_graph,
}
use lando_api.Assessment.Path.{phid_of, convert_path_id_to_phid, from_landing_path}
use lando_api.Assessment.Acknowledgement.{confirmation_token, raise_if_blocked_or_unacknowledged}
use lando_api.Assessment.Checks.{
  remove_blocked, is_assessed, blocker_stack_landing_path_landable, set_landing_repo, settle_repo,
  choose_repo, blocker_single_landing_repo, blocker_user_no_auth0_email,
  blocker_landing_already_requested, blocker_stack_landing_path_valid, block, note_reason,
  revision_blocker_checks, revision_blocker_checks, revision_check_pairs, run_warning_checks,
  run_checks, run_revision_checks, run_stack_checks, run_landing_checks,
}
use lando_api.Assessment.State.{look_up_if_set, look_up, find_revision, find_diff}
use lando_api.Assessment.Reviews.{collate_reviewer_attachments}
use lando_api.Assessment.Blockers.{
  blocker_user_scm_level, blocker_unsupported_repo, blocker_open_parents, blocker_closed_revisions,
  blocker_latest_diffs, blocker_author_planned_changes, blocker_diff_author_is_known,
  blocker_uplift_approval, blocker_revision_data_classification, blocker_prevent_symlinks,
  blocker_try_task_config, blocker_open_ancestor,
}

abbrev granted : Granted
granted = record {
  plan = record { repo = example_repo; flags = []; users = []; projects = []; relman_phids = [] };
  to_land = (revision, diff) ∷ [];
  checkin_phids = [];
}

is_granted : grant services requester (loaded tables) request ≡ returned granted
unfolding grant tagged loaded revision_keys associated revisions_query parse_transplant_request
    parse_landing_path revision_id_to_int choose_middle_revision_from_path get_elem? assess
    find_stack_from_landing_path build_stack_graph from_landing_path convert_path_id_to_phid phid_of
    build_stack_assessment_state get_parsed_diffs get_landable_repos_for_revision_data set_of
    involved_in gather_involved_phids get_diffs_for_revision get_collated_reviewers
    raise_if_blocked_or_unacknowledged confirmation_token run_landing_checks run_stack_checks
    run_revision_checks run_checks run_warning_checks revision_check_pairs revision_blocker_checks
    note_reason block blocker_stack_landing_path_valid blocker_landing_already_requested
    blocker_user_no_auth0_email blocker_single_landing_repo choose_repo settle_repo set_landing_repo
    blocker_stack_landing_path_landable is_assessed remove_blocked find_diff find_revision look_up
    look_up_if_set collate_reviewer_attachments blocker_open_ancestor blocker_try_task_config
    blocker_prevent_symlinks blocker_revision_data_classification blocker_uplift_approval
    blocker_diff_author_is_known blocker_author_planned_changes blocker_latest_diffs
    blocker_closed_revisions blocker_open_parents blocker_unsupported_repo blocker_user_scm_level
is_granted = refl

once :
    (g : Granted)
    → grant services requester (loaded tables) request ≡ returned g
    → Distinct (pairs_of g.to_land)
once g e =
    let c : returned granted ≡ returned g = sym is_granted ∙ e in
    let same : granted ≡ g = cc in subst (λ h. Distinct (pairs_of h.to_land)) same (tt, tt)

post-Recorded_example :
    Unchanged services tables (post services requester request tables)
    ⊎ Records services requester request tables (post services requester request tables).1
post-Recorded_example =
    post-Recorded services requester request tables ((λ e. omega arith), tt)
      ((λ e. omega arith), tt) ((tt, tt), (omega arith, tt)) once

post-Added_example :
    Unchanged services tables (post services requester request tables)
    ⊎ Added services requester request tables (post services requester request tables)
post-Added_example = post-Added services requester request tables ((λ e. omega arith), tt)

grant-Permits_example : Permits services requester (loaded tables) request granted
grant-Permits_example = grant-Permits services requester (loaded tables) request granted is_granted

no_rivals : rivals (1 ∷ []) tables ≡ []
unfolding rivals revisions_query loaded revision_keys associated with_revisions revision_at
no_rivals = refl

create_job-unnoticed_example :
    ((create_job services (some "ann@example.com") example_repo (1 ∷ []) tables).0 ≡ returned 6)
    × ((create_job services
          (some "bob@example.com")
          example_repo
          (1 ∷ [])
          (create_job services (some "ann@example.com") example_repo (1 ∷ []) tables).1).0
        ≡ returned 7)
create_job-unnoticed_example =
    create_job-unnoticed services "ann@example.com" "bob@example.com" example_repo (1 ∷ []) tables
      ((λ e. omega arith), tt) no_rivals

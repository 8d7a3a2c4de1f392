-- ===== src/Landing/Run/Main/Examples.antt =====
-- Runs of `run_job` on small inputs.
use lando_api.Landing.Samples.{example_repo, counting, answers, start}
use lando_api.Common.{refl, false, true, ◌≡◌}
use lando_api.Common.Exec.{operational_error, other, raised, returned}
use lando_api.Landing.Run.{
  set_landed_reviewers, is_temporary, change_job, transition, on_session, on_checkout, for_push,
}
use lando_api.Landing.Run.Main.{
  on_push_failure, phab_trigger_repo_update, update_bugs, set_reviewers, after_push, push,
  autoformat, format_and_push, with_checkout, run_job,
}
use lando_api.Landing.Repo.{phab_identifier}
use lando_api.Landing.Run.Verdict.{Broken, Verdict}
use lando_api.Landing.Job.{landing_job_identifier, transition_status}
use lando_api.Landing.Run.Phases.{
  notify_user_of_landing_failure, fail_and_notify, apply_patches, pull,
}
use lando_api.Landing.Run.Main.Outcomes.{run_job-Broken, run_job-Verdict}

run_lands :
    (run_job (answers true (returned tt)) example_repo (counting (returned tt)) start).0
    ≡ returned true
unfolding run_job pull apply_patches with_checkout format_and_push autoformat push after_push
    set_reviewers update_bugs phab_trigger_repo_update for_push on_checkout on_session transition
    transition_status change_job set_landed_reviewers phab_identifier
run_lands = refl

run_job-Verdict_example :
    Verdict false start
      (run_job (answers true (returned tt)) example_repo (counting (returned tt)) start).1
      true
run_job-Verdict_example =
    run_job-Verdict (answers true (returned tt)) example_repo (counting (returned tt)) start (λ i. (
      run_lands i,
      (run_job (answers true (returned tt)) example_repo (counting (returned tt)) start).1,
    ))

run_escapes :
    (run_job
      (answers true (raised (operational_error "down")))
      example_repo
      (counting (raised (other "boom")))
      start).0
    ≡ raised (operational_error "down")
unfolding run_job pull apply_patches with_checkout format_and_push autoformat push for_push
    on_checkout on_session transition transition_status on_push_failure is_temporary fail_and_notify
    notify_user_of_landing_failure landing_job_identifier
run_escapes = refl

run_job-Broken_example :
    Broken start
      (run_job
        (answers true (raised (operational_error "down")))
        example_repo
        (counting (raised (other "boom")))
        start).1
run_job-Broken_example =
    run_job-Broken (answers true (raised (operational_error "down"))) example_repo
      (counting (raised (other "boom"))) start
      (λ i. (
        run_escapes i,
        (run_job (answers true (raised (operational_error "down"))) example_repo
            (counting (raised (other "boom"))) start).1,
      ))

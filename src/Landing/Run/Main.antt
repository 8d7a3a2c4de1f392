-- ===== src/Landing/Run/Main.antt =====
-- `run_job` of landoapi/workers/landing_worker.py: the formatting, the push, the steps after it, and
-- the whole of the method.
pub mod Pushing
pub mod Landing
pub mod Outcomes
mod Examples
use lando_api.Common.{
  false, is_empty, length, [], not, none, true, ◌&&◌, ◌++◌, some, if◌then◌else◌, map, ◌∷◌, ℕ,
  String, Bool, Option, List,
}
use lando_api.Common.Exec.{
  Outcome, raise, operational_error, raised, modify, autoformatting_exception, returned, lift, when,
  attempt, gets, pure, Error, Exec, ◌>>=◌, ◌>>◌,
}
use lando_api.Landing.Run.{
  error_text, error_class, on_session, set_landed_reviewers, is_temporary, for_push, on_checkout,
  change_job, transition, Work,
}
use lando_api.Landing.Run.Phases.{
  notify_user_of_bug_update_failure, apply_patches, fail_and_notify, stop, go, pull, Flow, ◌>=>◌,
}
use lando_api.Landing.Interface.{HgRepo, Services}
use lando_api.Landing.Repo.{phab_identifier, Repo}
use lando_api.Landing.Revision.{Revision}
use lando_api.Common.Text.{text, splitlines, is_truthy, decimal}
use lando_api.Landing.Job.{commit_session, defer, land}

pub record Landed : Type 0 where
  pub commit_id : String
  pub bug_ids : List String

bugs_of : (String → List ℕ) → List String → List String
bugs_of parse_bugs [] = []
bugs_of parse_bugs (title ∷ rest) = map decimal (parse_bugs title) ++ bugs_of parse_bugs rest

module _ {W : Type 0} (services : Services W) where
  on_format_failure : Error → Exec (Work W) (Flow Unit)
  on_format_failure (autoformatting_exception details) = do
    fail_and_notify services (
        text (
          "Lando failed to format your patch for conformity with our "
          ∷ "formatting policy. Please see the details below.\n\n" ∷ details ∷ []))
    pure (stop false)
  on_format_failure e = raise e

  -- `if replacements:`
  note_replacements : Option (List String) → Exec (Work W) Unit
  note_replacements none = pure tt
  note_replacements (some []) = pure tt
  note_replacements (some (r ∷ rest)) =
      change_job (λ job. record job { formatted_replacements = some (r ∷ rest) })

  run_formatters : HgRepo W → List String → List String → Exec (Work W) (Flow Unit)
  run_formatters hgrepo titles bug_ids = do
    result ← attempt (on_checkout (hgrepo.format_stack (length titles) bug_ids))
    elim result [
      | returned replacements ↦ note_replacements replacements >> pure (go tt)
      | raised e ↦ on_format_failure e
    ]

  pub autoformat : Repo → HgRepo W → List String → List String → Exec (Work W) (Flow Unit)
  autoformat repo hgrepo titles bug_ids =
      if repo.autoformat_enabled then run_formatters hgrepo titles bug_ids else pure (go tt)

  -- The errors of `push`.
  pub on_push_failure : Repo → Error → Exec (Work W) (Flow Unit)
  on_push_failure repo e =
      if is_temporary e
      then (do
        transition defer "message" (
            text (
              "`Temporary error ("
              ∷ error_class e
              ∷ ") encountered while pushing to tree: "
              ∷ repo.tree
              ∷ ", push path: "
              ∷ repo.push_path
              ∷ []))
        pure (stop false))
      else (do
        fail_and_notify services (
            text (
              "Unexpected error while pushing to "
              ∷ repo.push_path
              ∷ ".\n"
              ∷ error_text services.library_text e
              ∷ []))
        pure (stop true))

  -- `repo.push_bookmark or None`
  bookmark_of : Repo → Option String
  bookmark_of repo = if is_truthy repo.push_bookmark then some repo.push_bookmark else none

  pub push : Repo → HgRepo W → Exec (Work W) (Flow Unit)
  unfolding bookmark_of
  push repo hgrepo = do
    result ← attempt (on_checkout (hgrepo.push repo.push_path (bookmark_of repo) repo.force_push))
    elim result [ returned _ ↦ pure (go tt) | raised e ↦ on_push_failure repo e ]

  -- What stands between the patches and the end of the `with` block.
  pub format_and_push : Repo → HgRepo W → Exec (Work W) (Flow Landed)
  unfolding bugs_of
  format_and_push repo hgrepo = do
    log ← on_checkout (hgrepo.run_hg ("log" ∷ "-r" ∷ "stack()" ∷ "-T" ∷ "{desc|firstline}\n" ∷ []))
    let titles = splitlines log
    let bug_ids = bugs_of services.parse_bugs titles
    autoformat repo hgrepo titles bug_ids >=> λ _. do
      commit_id ← on_checkout (hgrepo.run_hg ("log" ∷ "-r" ∷ "." ∷ "-T" ∷ "{node}" ∷ []))
      push repo hgrepo >=> λ _. pure (go (record { commit_id = commit_id; bug_ids = bug_ids }))

  pub with_checkout : Repo → HgRepo W → List Revision → Exec (Work W) (Flow Landed)
  with_checkout repo hgrepo revisions = pull services repo hgrepo >=> λ _.
      apply_patches services repo hgrepo revisions >=> λ _. format_and_push repo hgrepo

  -- Reviewer data are set if `mots.yaml` exists and can be read.
  -- A `mots.yaml` that cannot be read is skipped.
  use_directory : Option (Outcome (List ℕ)) → Exec (Work W) Unit
  use_directory none = pure tt
  use_directory (some (raised e)) = pure tt
  use_directory (some (returned directory)) = do
    change_job (set_landed_reviewers directory)
    on_session (modify commit_session)

  set_reviewers : Exec (Work W) Unit
  unfolding use_directory
  set_reviewers w = use_directory (services.peers_and_owners w.checkout) w

  try_update_bugs : Repo → HgRepo W → List String → Exec (Work W) Unit
  try_update_bugs repo hgrepo bug_ids = do
    milestone ← on_checkout (hgrepo.read_checkout_file "config/milestone.txt")
    lift (
        services.update_bugs repo.short_name milestone repo.milestone_tracking_flag_template
          bug_ids)

  report_bugs : Outcome (Unit {0}) → Exec (Work W) Unit
  report_bugs (returned _) = pure tt
  report_bugs (raised e) = notify_user_of_bug_update_failure services e

  update_bugs : Repo → HgRepo W → List String → Exec (Work W) Unit
  unfolding try_update_bugs report_bugs
  update_bugs repo hgrepo bug_ids =
      when (repo.approval_required && not (is_empty bug_ids))
        (attempt (try_update_bugs repo hgrepo bug_ids) >>= report_bugs)

  -- Only an error of the Celery queue is caught.
  queued : String → Outcome (Unit {0}) → Exec (Work W) Unit
  queued identifier (returned _) =
      modify (λ w. record w { repo_updates = w.repo_updates ++ identifier ∷ [] })
  queued identifier (raised (operational_error m)) = pure tt
  queued identifier (raised e) = raise e

  queue_update : Option String → Exec (Work W) Unit
  unfolding queued
  queue_update none = pure tt
  queue_update (some identifier) =
      when (is_truthy identifier)
        (attempt (lift (services.enqueue_repo_update identifier)) >>= queued identifier)

  phab_trigger_repo_update : Repo → Exec (Work W) Unit
  unfolding queue_update
  phab_trigger_repo_update repo = queue_update (phab_identifier repo)

  pub after_push : Repo → HgRepo W → Landed → Exec (Work W) Bool
  unfolding set_reviewers update_bugs phab_trigger_repo_update
  after_push repo hgrepo result = do
    transition land "commit_id" result.commit_id
    set_reviewers
    update_bugs repo hgrepo result.bug_ids
    phab_trigger_repo_update repo
    pure true

  -- After the `with` block: a step inside it returned, or the push is done.
  pub conclude : Repo → HgRepo W → Flow Landed → Exec (Work W) Bool
  conclude repo hgrepo (stop b) = pure b
  conclude repo hgrepo (go result) = after_push repo hgrepo result

  pub run_job : Repo → HgRepo W → Exec (Work W) Bool
  unfolding conclude
  run_job repo hgrepo =
      if services.is_open repo.tree
      then (do
        job ← gets (λ w. w.session.job)
        flow ← for_push hgrepo job.requester_email (with_checkout repo hgrepo job.revisions)
        conclude repo hgrepo flow)
      else (do
        transition defer "message"
            (text ("Tree " ∷ repo.tree ∷ " is closed - retrying later." ∷ []))
        pure false)

-- ===== src/Landing/Run/Phases.antt =====
-- The steps of `run_job` in landoapi/workers/landing_worker.py, each with its handlers.
pub mod Settling
pub mod Steps
use lando_api.Common.{
  string_eq, ◌==◌, not, if◌then◌else◌, ltb, false, true, [], map, ◌++◌, ◌∷◌, none, some, ℕ, String,
  Bool, Option, List,
}
use lando_api.Common.Exec.{
  no_diff_start_line, cinnabar_conversion_error, patch_conflict, raised, attempt, modify, lift,
  hgmo_internal_server_error, returned, gets, Outcome, Error, pure, Exec, ◌>>=◌, ◌>>◌,
}
use lando_api.Landing.Run.{error_class, change_job, error_text, on_checkout, transition, Work}
use lando_api.Landing.Interface.{bug_update_failure, landing_failure, HgRepo, Notice, Services}
use lando_api.Landing.Repo.{Repo}
use lando_api.Landing.Job.{FailedPath, defer, landing_job_identifier, Breakdown, fail, RejectPath}
use lando_api.Common.Text.{text, without_last, decimal}
use lando_api.Landing.Revision.{Revision}

-- `return b` out of the steps, or on to the next step.
pub data Flow (A : Type 0) : Type 0 where
  stop : Bool → Flow A
  go : A → Flow A

module _ {W : Type 0} where
  infixl 10 ◌>=>◌
  -- The next step, unless the job is already settled.
  abbrev pub ◌>=>◌ :
      {A B : Type 0}
      → Exec (Work W) (Flow A)
      → (A → Exec (Work W) (Flow B))
      → Exec (Work W) (Flow B)
  ◌>=>◌ m f = m >>= λ r. elim r [ stop b ↦ pure (stop b) | go a ↦ f a ]

module _ {W : Type 0} (services : Services W) where
  pub send : Notice → Exec (Work W) Unit
  send notice = do
    lift (services.send notice)
    modify (λ w. record w { notices = w.notices ++ notice ∷ [] })

  unfoldable pub notify_user_of_landing_failure : Exec (Work W) Unit
  unfolding send
  notify_user_of_landing_failure = do
    job ← gets (λ w. w.session.job)
    identifier ← lift (landing_job_identifier job)
    send (landing_failure job.requester_email identifier job.error job.id)

  pub notify_user_of_bug_update_failure : Error → Exec (Work W) Unit
  unfolding send
  notify_user_of_bug_update_failure e = do
    job ← gets (λ w. w.session.job)
    identifier ← lift (landing_job_identifier job)
    let message = text (
        "Failed to update Bugzilla after landing uplift revisions: "
        ∷ error_text services.library_text e
        ∷ [])
    send (bug_update_failure job.requester_email identifier message job.id)

  -- The job fails with a message, and its user is told.
  unfoldable pub fail_and_notify : String → Exec (Work W) Unit
  fail_and_notify message = do transition fail "message" message; notify_user_of_landing_failure

  -- The errors of `update_repo`.
  pub on_pull_failure : Repo → Error → Exec (Work W) (Flow Unit)
  on_pull_failure repo (hgmo_internal_server_error m) = do
    transition defer "message" (
        text (
          "`Temporary error ("
          ∷ error_class (hgmo_internal_server_error m)
          ∷ ") encountered while pulling from tree: "
          ∷ repo.tree
          ∷ ", pull path: "
          ∷ repo.pull_path
          ∷ []))
    pure (stop false)
  on_pull_failure repo (cinnabar_conversion_error m) = do
    job ← gets (λ w. w.session.job)
    let retry = ltb job.attempts 5
    transition (if retry then defer else fail) "message" m
    pure (stop (not retry))
  on_pull_failure repo e = do
    fail_and_notify (
        text (
          "Unexpected error while fetching repo from "
          ∷ repo.pull_path
          ∷ ".\n"
          ∷ error_text services.library_text e
          ∷ []))
    pure (stop true)

  unfoldable pub pull : Repo → HgRepo W → Exec (Work W) (Flow Unit)
  pull repo hgrepo = do
    job ← gets (λ w. w.session.job)
    result ← attempt (
        on_checkout
          (hgrepo.update_repo repo.pull_path job.target_commit_hash job.target_commit_hash_vcs))
    elim result [ returned _ ↦ pure (go tt) | raised e ↦ on_pull_failure repo e ]

  failed_paths : Repo → HgRepo W → List String → Exec (Work W) (List FailedPath)
  failed_paths repo hgrepo [] = pure []
  failed_paths repo hgrepo (reject ∷ rest) = do
    let path = without_last 4 reject
    node ← on_checkout (
        hgrepo.run_hg
          ("log" ∷ "--cwd" ∷ hgrepo.path ∷ "--template" ∷ "{node}" ∷ "-l" ∷ "1" ∷ path ∷ []))
    others ← failed_paths repo hgrepo rest
    pure (
        record {
          path = path;
          url = text (repo.pull_path ∷ "/file/" ∷ node ∷ "/" ∷ path ∷ []);
          changeset_id = node;
        }
        ∷ others)

  content_of : Outcome String → Option String
  content_of (returned content) = some content
  content_of (raised e) = none

  -- A reject file that cannot be read leaves its entry without content.
  reject_of : String → W → RejectPath
  unfolding content_of
  reject_of reject checkout = record {
    key = without_last 4 reject;
    path = reject;
    content = content_of (services.read_reject reject checkout);
  }

  -- `breakdown["reject_paths"][key] = reject`
  set_reject : RejectPath → List RejectPath → List RejectPath
  set_reject r [] = r ∷ []
  set_reject r (x ∷ xs) = let rest = set_reject r xs in if x.key == r.key then r ∷ xs else x ∷ rest

  rejects_of : W → List String → List RejectPath → List RejectPath
  unfolding set_reject reject_of
  rejects_of checkout [] found = found
  rejects_of checkout (r ∷ rest) found =
      rejects_of checkout rest (set_reject (reject_of r checkout) found)

  pub process_merge_conflict : Error → Repo → HgRepo W → Option ℕ → Exec (Work W) Breakdown
  unfolding failed_paths rejects_of
  process_merge_conflict exception repo hgrepo revision_id = do
    let rejects = services.reject_paths (error_text services.library_text exception)
    failed ← failed_paths repo hgrepo rejects
    checkout ← gets (λ w. w.checkout)
    pure (record {
      revision_id = revision_id;
      content = none;
      failed_paths = failed;
      reject_paths = rejects_of checkout rejects [];
    })

  -- `f"{revision.revision_id}"`
  revision_text : Option ℕ → String
  revision_text none = "None"
  revision_text (some id) = decimal id

  -- The errors of `apply_patch`.
  pub on_patch_failure : Repo → HgRepo W → Revision → Error → Exec (Work W) (Flow Unit)
  unfolding revision_text
  on_patch_failure repo hgrepo revision (patch_conflict m) = do
    breakdown ← process_merge_conflict (patch_conflict m) repo hgrepo revision.revision_id
    change_job (λ job. record job { error_breakdown = some breakdown })
    fail_and_notify (
        text (
          "Problem while applying patch in revision "
          ∷ revision_text revision.revision_id
          ∷ ":\n\n"
          ∷ m
          ∷ []))
    pure (stop true)
  on_patch_failure repo hgrepo revision no_diff_start_line = do
    fail_and_notify (
        text (
          "Lando encountered a malformed patch, please try again. "
          ∷ "If this error persists please file a bug: " ∷ "Patch without a diff start line." ∷ []))
    pure (stop true)
  on_patch_failure repo hgrepo revision e = do
    fail_and_notify (
        text (
          "Aborting, could not apply patch buffer for "
          ∷ revision_text revision.revision_id
          ∷ ".\n"
          ∷ error_text services.library_text e
          ∷ []))
    pure (stop true)

  unfoldable pub apply_patches : Repo → HgRepo W → List Revision → Exec (Work W) (Flow Unit)
  apply_patches repo hgrepo [] = pure (go tt)
  apply_patches repo hgrepo (revision ∷ rest) = do
    result ← attempt (on_checkout (hgrepo.apply_patch revision.patch_string))
    elim result [
      | returned _ ↦ apply_patches repo hgrepo rest
      | raised e ↦ on_patch_failure repo hgrepo revision e
    ]

-- ===== src/Landing/Run.antt =====
-- `run_job` of landoapi/workers/landing_worker.py, and what it calls there.
pub mod Phases
pub mod Main
pub mod Verdict
use lando_api.Common.{
  false, nat_eq, ◌++◌, none, not, [], ◌&&◌, or_default, elem, true, some, map, if◌then◌else◌, ◌∷◌,
  ℕ, String, Bool, Option, List,
}
use lando_api.Common.Exec.{
  no_diff_start_line, other, operational_error, called_process_error, autoformatting_exception,
  cinnabar_conversion_error, patch_conflict, hg_command_error, command_error,
  hgmo_internal_server_error, integrity_error, push_timeout, attribute_error, lost_push_race,
  key_error, lift, value_error, tree_approval_required, problem, modify, tree_closed, attempt,
  Error, Exec, ◌>>=◌, ◌>>◌,
}
use lando_api.Landing.Job.{transition_status, LandingJobAction, LandingJob, Session}
use lando_api.Landing.Interface.{Notice, HgRepo}
use lando_api.Landing.Revision.{Revision}

-- The worker's state: the session with its job, the checkout, the e-mails and the repository
-- updates that were queued.
pub record Work (W : Type 0) : Type 0 where
  pub session : Session
  pub checkout : W
  pub notices : List Notice
  pub repo_updates : List String

-- `str(e)`, given that of the exceptions of Python and of the packages whose text is no mere message
pub error_text : (library_text : Error → String) → Error → String
error_text library_text (problem status title) = title
error_text library_text (value_error m) = m
error_text library_text (key_error m) = library_text (key_error m)
error_text library_text (attribute_error m) = m
error_text library_text (integrity_error m) = m
error_text library_text (command_error out err) = library_text (command_error out err)
error_text library_text (hg_command_error m) = m
error_text library_text (lost_push_race m) = m
error_text library_text (patch_conflict m) = m
error_text library_text (tree_closed m) = m
error_text library_text (tree_approval_required m) = m
error_text library_text (push_timeout m) = m
error_text library_text (hgmo_internal_server_error m) = m
error_text library_text no_diff_start_line = ""
error_text library_text (cinnabar_conversion_error m) = m
error_text library_text (autoformatting_exception d) = d
error_text library_text (called_process_error m) = library_text (called_process_error m)
error_text library_text (operational_error m) = library_text (operational_error m)
error_text library_text (other m) = library_text (other m)

-- `e.__class__`, for the errors that are reported as temporary
pub error_class : Error → String
error_class (tree_closed m) = "<class 'landoapi.hg.TreeClosed'>"
error_class (tree_approval_required m) = "<class 'landoapi.hg.TreeApprovalRequired'>"
error_class (lost_push_race m) = "<class 'landoapi.hg.LostPushRace'>"
error_class (push_timeout m) = "<class 'landoapi.hg.PushTimeoutException'>"
error_class (hgmo_internal_server_error m) = "<class 'landoapi.hg.HgmoInternalServerError'>"
error_class e = ""

-- The errors of a push after which the job is tried again.
pub is_temporary : Error → Bool
is_temporary (tree_closed m) = true
is_temporary (tree_approval_required m) = true
is_temporary (lost_push_race m) = true
is_temporary (push_timeout m) = true
is_temporary (hgmo_internal_server_error m) = true
is_temporary e = false

-- `set_landed_reviewers`: the reviewers of a revision that are peers or owners, each once.
add_reviewers : (directory approved_by found : List ℕ) → List ℕ
add_reviewers directory [] found = found
add_reviewers directory (r ∷ rest) found =
    add_reviewers directory rest
      (if elem r directory && not (elem r found) then found ++ r ∷ [] else found)

reviewed : List ℕ → Revision → Option (List ℕ) → Revision
unfolding add_reviewers
reviewed directory revision none = revision
reviewed directory revision (some []) = revision
reviewed directory revision (some (r ∷ rest)) = record revision {
  peers_and_owners =
      some (add_reviewers directory (r ∷ rest) (or_default revision.peers_and_owners []));
}

pub set_landed_reviewers : List ℕ → LandingJob → LandingJob
unfolding reviewed
set_landed_reviewers directory job = record job {
  revisions = map (λ r. reviewed directory r r.approved_by) job.revisions;
}

module _ {W : Type 0} where
  pub on_session : {A : Type 0} → Exec Session A → Exec (Work W) A
  on_session m w = let (r, s) = m w.session in (r, record w { session = s })

  pub on_checkout : {A : Type 0} → Exec W A → Exec (Work W) A
  on_checkout m w = let (r, c) = m w.checkout in (r, record w { checkout = c })

  pub change_job : (LandingJob → LandingJob) → Exec (Work W) Unit
  change_job f = on_session (modify (λ s. record s { job = f s.job }))

  -- `job.transition_status(action, …, commit=True, db=db)`
  pub transition : LandingJobAction → (key value : String) → Exec (Work W) Unit
  unfolding on_session
  transition action key value = on_session (transition_status action true true ((key, value) ∷ []))

  -- `with hgrepo.for_push(email): body`: the checkout is closed on every way out.
  pub for_push : {A : Type 0} → HgRepo W → String → Exec (Work W) A → Exec (Work W) A
  unfolding on_checkout
  for_push hgrepo email body = do
    on_checkout (hgrepo.open_for_push email)
    result ← attempt body
    on_checkout (modify hgrepo.close)
    lift result

-- ===== src/Submission/Post.antt =====
-- `post` of landoapi/api/transplants.py: the request to land a path. Every write is committed before
-- the next call that may raise, so the tables as an exception leaves them are the committed ones.
pub mod Ending
pub mod Adding
pub mod Path
pub mod Recorded
pub mod Unnoticed
pub mod Granting
mod Examples
use lando_api.Landing.Job.{status_eq, in_progress, submitted, at_least_zero, LandingJob}
use lando_api.Common.{
  any, or_default, is_empty, not, nat_eq, suc, option_eq, [], string_eq, ◌==◌, ◌++◌, keep,
  if◌then◌else◌, some, ◌∷◌, elem, none, String, map, Bool, Option, List, ℕ,
}
use lando_api.Landing.Repo.{Repo}
use lando_api.Submission.Assess.{assess, ReleaseManagers, Assessed, User, Services}
use lando_api.Assessment.State.{PhabDiff, PhabRevision}
use lando_api.Submission.Tables.{
  set_landed_revision_diffs, loaded, add_revisions, revision_at, revisions_query, update_revision,
  sort_revisions, get_from_revision_id, JobTables,
}
use lando_api.Assessment.Reviews.{
  approvals_for_commit_message, has_accepted, Identity, reviewers_for_commit_message, Reviewer,
}
use lando_api.Common.Exec.{
  Error, for_each, problem, integrity_error, value_error, when, operational_error, modify, lift,
  gets, ◌>>>◌, attribute_error, raised, returned, ◌>>◌, ◌>>=◌, pure, Exec, Outcome,
}
use lando_api.Landing.Revision.{Revision}
use lando_api.Submission.Stack.{involved_in, set_of, get_collated_reviewers}
use lando_api.Common.Int.{int_of, ℤ}
use lando_api.Common.Text.{decimal, is_truthy}
use lando_api.Assessment.Blockers.{select_diff_author}
use lando_api.Patch.Build.{build_patch_for_revision}
use lando_api.Assessment.Acknowledgement.{raise_if_blocked_or_unacknowledged}
use lando_api.Submission.Prepare.{tagged, prepare_revisions, Plan}
use lando_api.Submission.Request.{parse_transplant_request, TransplantRequest}

-- `LandingJob(…)` with the defaults of the columns.
unfoldable pub new_job : (id now : ℕ) → (email : String) → Repo → LandingJob
new_job id now email repo = record {
  id = id;
  created_at = now;
  status = none;
  error = "";
  error_breakdown = none;
  requester_email = email;
  repository_name = repo.short_name;
  repository_url = repo.url;
  landed_commit_id = "";
  attempts = 0;
  priority = at_least_zero 0;
  duration_seconds = 0;
  formatted_replacements = none;
  target_commit_hash = none;
  target_commit_hash_vcs = none;
  revisions = [];
  revision_to_diff_id = [];
}

-- A job that waits or runs.
is_active : LandingJob → Bool
is_active job = elem job.status (some submitted ∷ some in_progress ∷ [])

-- `revision.revision_id`
revision_ids : List ℕ → List Revision → List (Option ℕ)
revision_ids [] rows = []
revision_ids (key ∷ keys) rows = elim (revision_at key rows) [
  | none ↦ revision_ids keys rows
  | some r ↦ r.revision_id ∷ revision_ids keys rows
]

-- The jobs that the check under the lock counts.
unfoldable pub rivals : List ℕ → JobTables → List LandingJob
unfolding is_active revision_ids
rivals keys t = keep is_active (revisions_query (revision_ids keys t.revisions) (loaded t))

-- The new job, and the first commit of `add_revisions_to_job`.
unfoldable pub add_job : (now : ℕ) → (email : String) → Repo → List ℕ → Exec JobTables ℕ
add_job now email repo keys t = (
  returned t.next_job,
  record t {
    jobs = t.jobs ++ new_job t.next_job now email repo ∷ [];
    associations = t.associations ++ add_revisions t.next_job keys;
    next_job = suc t.next_job;
  },
)

unfoldable pub update_job : ℕ → (LandingJob → LandingJob) → List LandingJob → List LandingJob
update_job id f jobs = map (λ job. if job.id == id then f job else job) jobs

unfoldable pub write_approved : List (ℕ × List ℕ) → List Revision → List Revision
write_approved [] rows = rows
write_approved ((key, approved) ∷ prepared) rows = write_approved prepared (
    update_revision key (λ r. record r { approved_by = some approved; peers_and_owners = none })
      rows)

-- From `sort_revisions` to the last commit.
unfoldable pub submit_job : ℕ → List (ℕ × List ℕ) → Exec JobTables Unit
unfolding update_job write_approved
submit_job job prepared = do
  sort_revisions job (map (λ p. p.0) prepared)
  modify (λ t. record t { revisions = write_approved prepared t.revisions })
  modify
      (λ t. record t { jobs = update_job job (λ j. record j { status = some submitted }) t.jobs })
  modify (set_landed_revision_diffs job)

-- What a request is granted, with the revisions that have the tag of the request.
pub record Granted : Type 0 where
  pub plan : Plan
  pub to_land : List (PhabRevision × PhabDiff)
  pub checkin_phids : List String

-- `requester_email` is not nullable.
required_email : Option String → Outcome String
required_email none = raised (integrity_error "requester_email")
required_email (some email) = returned email

-- `except kombu.exceptions.OperationalError: pass`
swallow : Error → Outcome (Unit {0})
swallow (operational_error e) = returned tt
swallow e = raised e

module _ {G : Type 0} (services : Services G) where
  members_of : Option ReleaseManagers → List String
  members_of none = []
  members_of (some managers) = managers.members

  -- The queries before the loop.
  searched : Assessed G → (flags : List String) → Repo → Outcome Plan
  unfolding members_of
  searched assessed flags repo =
      let phids =
        set_of (involved_in (map (λ p. p.0) assessed.landing.to_land) assessed.stack_data.diffs) in
      services.user_search phids >>> λ users. services.project_search phids >>> λ projects.
      returned (record {
        repo = repo;
        flags = flags;
        users = users;
        projects = projects;
        relman_phids = members_of services.release_managers;
      })

  -- The checks behind `raise_if_blocked_or_unacknowledged`.
  plan_of : Assessed G → (flags : List String) → Option Repo → Outcome Plan
  unfolding searched
  plan_of assessed flags none =
      raised (value_error "One or more values missing in access transplant request")
  plan_of assessed flags (some repo) =
      if is_empty assessed.landing.to_land
      then raised (value_error "One or more values missing in access transplant request")
      else if any (λ f. not (elem f (map (λ p. p.0) repo.commit_flags))) flags
      then raised (problem 400 "Invalid flags specified")
      else searched assessed flags repo

  -- Everything before the first write.
  unfoldable pub grant : User → (jobs : List LandingJob) → TransplantRequest → Outcome Granted
  unfolding plan_of
  grant user jobs request = parse_transplant_request request >>> λ parsed.
      assess services user jobs parsed.landing_path >>> λ assessed.
      raise_if_blocked_or_unacknowledged services.digest assessed.run.blockers assessed.run.warnings
        parsed.confirmation_token
      >>> λ _. plan_of assessed parsed.flags assessed.run.progress.landing_repo >>> λ plan.
          returned (record {
            plan = plan;
            to_land = assessed.landing.to_land;
            checkin_phids =
                map (λ p. p.0.phid)
                  (keep (λ p. tagged services.checkin_project_phid p.0) assessed.landing.to_land);
          })

  -- From the lock to the commit that ends it.
  unfoldable pub create_job : (email : Option String) → Repo → List ℕ → Exec JobTables ℕ
  unfolding required_email
  create_job email repo keys = do
    found ← gets (rivals keys)
    when (not (is_empty found)) (
        lift (
          raise_if_blocked_or_unacknowledged services.digest
            ("This stack was submitted for landing by another user at the same time." ∷ []) []
            none))
    requester ← lift (required_email email)
    add_job services.now requester repo keys

  -- The tag of the request is removed if the task is queued.
  unfoldable pub remove_tag : (revision_phid : String) → Exec JobTables Unit
  unfolding swallow
  remove_tag phid t =
      let project = or_default services.checkin_project_phid "" in
      elim (services.remove_project phid project) [
        | returned _ ↦ (returned tt, record t { sent = t.sent ++ (phid, project) ∷ [] })
        | raised e ↦ (swallow e, t)
      ]

  -- Behind the creation of the job.
  unfoldable pub finish_post : Granted → List (ℕ × List ℕ) → (job : ℕ) → Exec JobTables ℕ
  unfolding remove_tag
  finish_post granted prepared job = do
    submit_job job prepared
    for_each granted.checkin_phids remove_tag
    pure job

  -- Behind the building of the patches.
  unfoldable pub settle : User → Granted → List (ℕ × List ℕ) → Exec JobTables ℕ
  settle user granted prepared = do
    job ← create_job user.email granted.plan.repo (map (λ p. p.0) prepared)
    finish_post granted prepared job

  unfoldable pub land_granted : User → Granted → Exec JobTables ℕ
  land_granted user granted = do
    prepared ← prepare_revisions services granted.plan granted.to_land
    settle user granted prepared

  unfoldable pub post : User → TransplantRequest → Exec JobTables ℕ
  post user request = do
    jobs ← gets loaded
    granted ← lift (grant user jobs request)
    land_granted user granted

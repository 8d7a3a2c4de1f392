-- ===== src/Landing/Cancel.antt =====
-- landoapi/api/landing_jobs.py: reading and cancelling a job, on the table of jobs.
mod Examples
pub mod Rows
use lando_api.Common.{
  none, option_eq, string_eq, [], ◌∷◌, false, nat_eq, ◌==◌, not, some, elem, if◌then◌else◌, find, ℕ,
  String, Bool, Option, List,
}
use lando_api.Common.Exec.{attribute_error, raised, returned, raise, problem, Outcome, Error, Exec}
use lando_api.Landing.Job.{
  status_eq, deferred, cancelled, status_value, submitted, cancel, transition_status, LandingJob,
}
use lando_api.Landing.Table.{store}

abbrev pub Table : Type 0
Table = List LandingJob

-- `LandingJob.query.get(id)`
pub get_job : ℕ → Table → Option LandingJob
get_job id jobs = find (λ j. j.id == id) jobs

pub record JobStatus : Type 0 where
  pub id : ℕ
  pub status : String
  pub commit_id : String

not_found : ℕ → Error
not_found id = problem 404 "Landing job not found"

status_of : LandingJob → Outcome JobStatus
status_of job = elim job.status [
  | none ↦ raised (attribute_error "value")
  | some status ↦
      returned
        (record { id = job.id; status = status_value status; commit_id = job.landed_commit_id })
]

pub get : ℕ → Table → Outcome JobStatus
unfolding not_found status_of
get id jobs = elim (get_job id jobs) [ none ↦ raised (not_found id) | some job ↦ status_of job ]

-- `landing_job.status in (SUBMITTED, DEFERRED)`
pub can_cancel : LandingJob → Bool
can_cancel job = elem job.status (some submitted ∷ some deferred ∷ [])

-- The transition on the fetched object, and the commit after it.
cancel_job : LandingJob → Exec Table ℕ
cancel_job job jobs =
    let (r, s) = transition_status cancel false false [] (record { job = job; row = job }) in
    elim r [ returned _ ↦ (returned job.id, store job.id s.job jobs) | raised e ↦ (raised e, jobs) ]

pub put_job : (email status : String) → LandingJob → Exec Table ℕ
unfolding can_cancel cancel_job
put_job email status job =
    if not (job.requester_email == email)
    then raise (problem 403 "Unauthorized")
    else if not (status == status_value cancelled)
    then raise (problem 400 "Invalid status provided")
    else if can_cancel job
    then cancel_job job
    else raise (problem 400 "Landing job could not be cancelled.")

-- The user is logged in with `email`; `status` is `data["status"]`.
pub put : (email : String) → ℕ → (status : String) → Exec Table ℕ
unfolding put_job not_found
put email id status jobs = elim (get_job id jobs) [
  | none ↦ (raised (not_found id), jobs)
  | some job ↦ put_job email status job jobs
]

-- ===== src/Landing/Queue.antt =====
-- `job_queue_query` and `next_job_for_update_query` of landoapi/models/landing_job.py, on the table
-- of jobs as a list of rows.
mod Examples
pub mod Waiting
pub mod Order
pub mod Next
use lando_api.Common.{
  string_eq, option_eq, nat_eq, leb, none, false, ◌+◌, ◌&&◌, suc, ◌||◌, true, ltb, [],
  if◌then◌else◌, ◌==◌, some, elem, first, ◌∷◌, Bool, keep, Option, ℕ, String, List, ◌≡◌,
}
use lando_api.Landing.Job.{
  status_eq, deferred, in_progress, submitted, status_rank, below_zero, at_least_zero,
  LandingJobStatus, LandingJob, Priority,
}

-- The parts of an integer above and below zero.
pos_part : Priority → ℕ
pos_part (at_least_zero n) = n
pos_part (below_zero n) = 0

neg_part : Priority → ℕ
neg_part (at_least_zero n) = 0
neg_part (below_zero n) = suc n

priority_ltb : Priority → Priority → Bool
priority_ltb p q = ltb (pos_part p + neg_part q) (pos_part q + neg_part p)

-- The database orders NULL behind every value.
rank_of : Option LandingJobStatus → ℕ
rank_of none = 6
rank_of (some status) = status_rank status

applicable_statuses : List (Option LandingJobStatus)
applicable_statuses = some submitted ∷ some in_progress ∷ some deferred ∷ []

-- `if repositories:` is false for `None` and for the empty list.
in_repositories : Option (List String) → LandingJob → Bool
in_repositories none job = true
in_repositories (some []) job = true
in_repositories (some (r ∷ rest)) job = elem job.repository_name (r ∷ rest)

-- `created_at < now - grace_seconds`
past_grace : (grace_seconds now : ℕ) → LandingJob → Bool
past_grace grace_seconds now job = grace_seconds == 0 || ltb (job.created_at + grace_seconds) now

pub is_queued : Option (List String) → (grace_seconds now : ℕ) → LandingJob → Bool
unfolding applicable_statuses in_repositories past_grace
is_queued repositories grace_seconds now job =
    elem job.status applicable_statuses
    && in_repositories repositories job
    && past_grace grace_seconds now job

-- `order_by(status.desc(), priority.desc(), created_at)`
pub precedes : LandingJob → LandingJob → Bool
unfolding priority_ltb
precedes a b =
    if ltb (rank_of b.status) (rank_of a.status)
    then true
    else if ltb (rank_of a.status) (rank_of b.status)
    then false
    else if priority_ltb b.priority a.priority
    then true
    else if priority_ltb a.priority b.priority
    then false
    else leb a.created_at b.created_at

pub insert_job : LandingJob → List LandingJob → List LandingJob
insert_job a [] = a ∷ []
insert_job a (b ∷ bs) = let rest = b ∷ insert_job a bs in if precedes a b then a ∷ b ∷ bs else rest

pub order_jobs : List LandingJob → List LandingJob
order_jobs [] = []
order_jobs (a ∷ as_) = insert_job a (order_jobs as_)

pub job_queue_query :
    Option (List String) → (grace_seconds now : ℕ) → List LandingJob → List LandingJob
unfolding insert_job order_jobs
job_queue_query repositories grace_seconds now table =
    order_jobs (keep (is_queued repositories grace_seconds now) table)

-- The row that `first()` of the locking query returns, with the default grace period.
pub next_job_for_update_query :
    (default_grace_seconds now : ℕ) → Option (List String) → List LandingJob → Option LandingJob
next_job_for_update_query default_grace_seconds now repositories table =
    first (job_queue_query repositories default_grace_seconds now table)

-- ===== src/Landing/Queue/Examples.antt =====
-- The queue on a small table.
use mathlib.Core.List.{Perm, Mem}
use lando_api.Common.{◌↔◌, refl, keep, true, ◌≡◌, All, [], ◌∷◌, some, String, Option, List}
use lando_api.Landing.Queue.{
  neg_part, pos_part, priority_ltb, rank_of, precedes, is_queued, insert_job, order_jobs,
  job_queue_query, next_job_for_update_query,
}
use lando_api.Landing.Job.{landed, LandingJob}
use lando_api.Landing.Samples.{waiting_job, example_job}
use lando_api.Landing.Queue.Next.{next_job-IsFirst, next_job-none}
use lando_api.Landing.Queue.Waiting.{IsWaiting, ComesBefore}
use lando_api.Landing.Queue.Order.{job_queue_query-refines, IsOrdered}

abbrev table : List LandingJob
table = example_job ∷ waiting_job ∷ record example_job { id = 7; status = some landed } ∷ []

abbrev names : Option (List String)
names = some ("mozilla-central" ∷ [])

job_queue_query-refines_example :
    Perm (job_queue_query names 120 500 table) (keep (is_queued names 120 500) table)
    × ((j : LandingJob) → (is_queued names 120 500 j ≡ true) ↔ IsWaiting names 120 500 j)
    × IsOrdered (job_queue_query names 120 500 table)
job_queue_query-refines_example = job_queue_query-refines names 120 500 table

next_job-IsFirst_example :
    Mem waiting_job table
    × IsWaiting names 120 500 waiting_job
    × All (λ k. IsWaiting names 120 500 k → ComesBefore waiting_job k) table
unfolding next_job_for_update_query job_queue_query order_jobs insert_job is_queued precedes rank_of
    priority_ltb pos_part neg_part
next_job-IsFirst_example = next_job-IsFirst 120 500 names table refl

next_job-none_example :
    All (λ k. IsWaiting names 120 200 k → ⊥) (record example_job { status = some landed } ∷ [])
unfolding next_job_for_update_query job_queue_query order_jobs insert_job is_queued precedes rank_of
    priority_ltb pos_part neg_part
next_job-none_example =
    next_job-none 120 200 names (record example_job { status = some landed } ∷ []) refl

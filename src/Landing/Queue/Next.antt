-- ===== src/Landing/Queue/Next.antt =====
-- The row that the locking query hands to the worker.
use mathlib.Core.List.{Mem, mem-cons}
use mathlib.Core.Logic.Or
use lando_api.Common.{
  none, refl, ◌⊎◌, subst, inr, inl, some, [], Bool-cases, arith, keep, first, true, All, String,
  Option, ℕ, List, ◌≡◌, ◌∷◌,
}
use lando_api.Landing.Queue.{
  applicable_statuses, is_queued, job_queue_query, next_job_for_update_query, precedes, order_jobs,
}
use lando_api.Landing.Job.{submitted, deferred, in_progress, LandingJob}
use lando_api.Landing.Queue.Order.{
  order_jobs-IsSorted, IsSorted, Waiting, All-order_jobs, All-of-order_jobs, All-keep, All-of-keep,
}
use lando_api.Landing.Queue.Waiting.{
  IsWaiting, ComesBefore, is_queued-IsWaiting, precedes-ComesBefore,
}

precedes_refl : (a : LandingJob) → precedes a a ≡ true
unfolding precedes
precedes_refl a = ground arith

pub is_queued-status :
    (repositories : Option (List String)) (grace_seconds now : ℕ) (j : LandingJob)
    → is_queued repositories grace_seconds now j ≡ true
    → (j.status ≡ some submitted) ⊎ ((j.status ≡ some in_progress) ⊎ (j.status ≡ some deferred))
unfolding is_queued applicable_statuses
is_queued-status repositories grace_seconds now j h = ground arith

-- The job stands in the queue before every job of the list, itself included.
abbrev pub IsFirst : LandingJob → List LandingJob → Type 0
IsFirst j jobs = All (λ k. precedes j k ≡ true) jobs

first_of_ordered :
    (jobs : List LandingJob) {j : LandingJob} → IsSorted jobs → first jobs ≡ some j → IsFirst j jobs
first_of_ordered (a ∷ rest) {j} h e =
    let e' : a ≡ j = cc in subst (λ k. IsFirst k (a ∷ rest)) e' (precedes_refl a, h.0)
first_of_ordered [] h e = cc

first_of_All :
    (Q : LandingJob → Type 0) (jobs : List LandingJob) {j : LandingJob}
    → All Q jobs
    → first jobs ≡ some j
    → Q j
first_of_All Q (a ∷ rest) h e = subst Q (cc) h.0
first_of_All Q [] h e = cc

All-Mem-cons :
    {A : Type 0} (x : A) (xs ys : List A) → All (λ y. Mem y xs) ys → All (λ y. Mem y (x ∷ xs)) ys
All-Mem-cons x xs [] h = tt
All-Mem-cons x xs (y ∷ ys) h = (mem-cons.1 (Or.inr h.0), All-Mem-cons x xs ys h.1)

All-Mem : {A : Type 0} (xs : List A) → All (λ x. Mem x xs) xs
All-Mem [] = tt
All-Mem (x ∷ xs) = (mem-cons.1 (Or.inl refl), All-Mem-cons x xs xs (All-Mem xs))

first-none : (jobs : List LandingJob) → first jobs ≡ none → All (λ _. ⊥) jobs
first-none [] e = tt
first-none (j ∷ jobs) e = absurd (cc)

module _ (default_grace_seconds now : ℕ) (repositories : Option (List String))
    (table : List LandingJob) where
  abbrev waiting : List LandingJob
  waiting = keep (is_queued repositories default_grace_seconds now) table

  -- The job that is handed out passes the filters, and precedes all that pass them.
  pub next_job-precedes :
      {j : LandingJob}
      → next_job_for_update_query default_grace_seconds now repositories table ≡ some j
      → (is_queued repositories default_grace_seconds now j ≡ true) × IsFirst j waiting
  unfolding next_job_for_update_query job_queue_query
  next_job-precedes e = (
    first_of_All (λ k. is_queued repositories default_grace_seconds now k ≡ true)
        (order_jobs waiting)
        (All-order_jobs (λ k. is_queued repositories default_grace_seconds now k ≡ true) waiting
          (All-keep (is_queued repositories default_grace_seconds now) table))
        e,
    All-of-order_jobs (λ k. precedes _ k ≡ true) waiting
        (first_of_ordered (order_jobs waiting) (order_jobs-IsSorted waiting) e),
  )

  -- What holds of all rows of the table holds of the job that is handed out.
  pub next_job-All :
      (Q : LandingJob → Type 0) {j : LandingJob}
      → All Q table
      → next_job_for_update_query default_grace_seconds now repositories table ≡ some j
      → Q j
  unfolding next_job_for_update_query job_queue_query
  next_job-All Q h e =
      first_of_All Q (order_jobs waiting)
        (All-order_jobs Q waiting
          (All-of-keep Q (is_queued repositories default_grace_seconds now) table h))
        e

  first-Waiting :
      {j : LandingJob} (jobs : List LandingJob)
      → Waiting repositories default_grace_seconds now j
      → All
          (λ k. precedes j k ≡ true)
          (keep (is_queued repositories default_grace_seconds now) jobs)
      → All (λ k. Waiting repositories default_grace_seconds now k → ComesBefore j k) jobs
  first-Waiting [] v h = tt
  first-Waiting {j} (k ∷ jobs) v h =
      elim (Bool-cases (is_queued repositories default_grace_seconds now k)) [
        | inl t ↦
            let h' : All (λ k. precedes j k ≡ true)
                (k ∷ keep (is_queued repositories default_grace_seconds now) jobs) =
              rw t at h in
            (
              (λ w. precedes-ComesBefore repositories default_grace_seconds now j k v w h'.0),
              first-Waiting jobs v h'.1,
            )
        | inr f ↦
            let h' : All (λ k. precedes j k ≡ true)
                (keep (is_queued repositories default_grace_seconds now) jobs) =
              rw f at h in
            (
              (λ w.
                  let t = (is_queued-IsWaiting repositories default_grace_seconds now k).1 w in
                  absurd (cc)),
              first-Waiting jobs v h',
            )
      ]

  -- The job that the worker is handed stands in the table and waits: it is SUBMITTED, IN_PROGRESS or
  -- DEFERRED, of a repository in the list (any if there is no list, or an empty one), and older than
  -- the grace period if it is not 0. It comes before every waiting job of the table: a deferred job
  -- before one in progress, that before a submitted one; of one status the one of higher priority; of
  -- one priority the one created earlier.
  pub next_job-IsFirst :
      {j : LandingJob}
      → next_job_for_update_query default_grace_seconds now repositories table ≡ some j
      → Mem j table
        × IsWaiting repositories default_grace_seconds now j
        × All (λ k. IsWaiting repositories default_grace_seconds now k → ComesBefore j k) table
  next_job-IsFirst {j} e =
      let (queued, first_) = next_job-precedes e in
      let v = (is_queued-IsWaiting repositories default_grace_seconds now j).0 queued in
      (next_job-All (λ k. Mem k table) (All-Mem table) e, v, first-Waiting table v first_)

  none-Waiting :
      (jobs : List LandingJob)
      → All (λ _. ⊥) (keep (is_queued repositories default_grace_seconds now) jobs)
      → All (λ k. Waiting repositories default_grace_seconds now k → ⊥) jobs
  none-Waiting [] h = tt
  none-Waiting (k ∷ jobs) h =
      elim (Bool-cases (is_queued repositories default_grace_seconds now k)) [
        | inl t ↦
            let h' : All (λ _. ⊥)
                (k ∷ keep (is_queued repositories default_grace_seconds now) jobs) =
              rw t at h in
            absurd h'.0
        | inr f ↦
            let h' : All (λ _. ⊥) (keep (is_queued repositories default_grace_seconds now) jobs) =
              rw f at h in
            (
              (λ w.
                  let t = (is_queued-IsWaiting repositories default_grace_seconds now k).1 w in
                  absurd (cc)),
              none-Waiting jobs h',
            )
      ]

  -- The worker is handed no job only if no job of the table waits: none is SUBMITTED, IN_PROGRESS or
  -- DEFERRED, of a repository in the list (any if there is no list, or an empty one), and older than
  -- the grace period if it is not 0.
  pub next_job-none :
      next_job_for_update_query default_grace_seconds now repositories table ≡ none
      → All (λ k. IsWaiting repositories default_grace_seconds now k → ⊥) table
  unfolding next_job_for_update_query job_queue_query
  next_job-none e =
      none-Waiting table (All-of-order_jobs (λ _. ⊥) waiting (first-none (order_jobs waiting) e))

-- ===== src/Landing/Cancel/Rows.antt =====
-- What a request to cancel a job does to the table, and what is read afterwards.
use lando_api.Common.{
  find-All, find-true, sym, ap, nat_eq, ◌∙◌, none, option_eq, string_eq, ==-eq, elem, ◌==◌, arith,
  [], refl, inr, subst, inl, Bool-cases, Option, ◌⊎◌, true, ◌∷◌, ◌≡◌, some, String, ℕ, List,
}
use lando_api.Landing.Job.{
  status_eq, status_value, transition_status, deferred, submitted, cancelled, LandingJob,
}
use lando_api.Landing.Cancel.{
  JobStatus, status_of, get, not_found, can_cancel, put_job, put, Table, cancel_job, get_job,
}
use lando_api.Common.Exec.{problem, raised, Error, returned, Outcome}
use lando_api.Landing.Table.{
  keyed, Identifies, Rows-store, Rows-same, Rows, IsKeyed, find-store, store,
}

-- A row that was found is read as it was written.
get_job-store :
    (id : ℕ) (job new : LandingJob) (jobs : List LandingJob)
    → get_job id jobs ≡ some job
    → new.id ≡ id
    → get_job id (store id new jobs) ≡ some new
unfolding get_job
get_job-store id job new jobs found e = find-store id job new jobs e found

abbrev set_cancelled : LandingJob → LandingJob
set_cancelled job = record job { status = some cancelled }

cancel_job-set :
    (job : LandingJob) (jobs : Table)
    → cancel_job job jobs ≡ (returned job.id, store job.id (set_cancelled job) jobs)
unfolding cancel_job transition_status
cancel_job-set job jobs = refl

get-cancelled :
    (id : ℕ) (job : LandingJob) (jobs : Table)
    → get_job id jobs ≡ some (set_cancelled job)
    → job.id ≡ id
    → get id jobs
      ≡ returned (record { id = id; status = "CANCELLED"; commit_id = job.landed_commit_id })
unfolding get status_of
get-cancelled id job jobs read e =
    ap
      (λ (f : Option LandingJob). elim f as (λ _. Outcome JobStatus) [
        | none ↦ raised (not_found id)
        | some j ↦ status_of j
      ])
      read
    ∙ ap (λ i. returned (record { id = i; status = "CANCELLED"; commit_id = job.landed_commit_id }))
        e

can_cancel-waits :
    (job : LandingJob)
    → can_cancel job ≡ true
    → (job.status ≡ some submitted) ⊎ (job.status ≡ some deferred)
unfolding can_cancel
can_cancel-waits job h = ground arith

module _ (email : String) (id : ℕ) (status : String) (jobs : Table) where
  -- The user owns the job, asked for its cancellation, and it waits.
  pub record IsGranted (job : LandingJob) : Type 0 where
    pub found : get_job id jobs ≡ some job
    pub owned : job.requester_email ≡ email
    pub asked : status ≡ "CANCELLED"
    pub waits : (job.status ≡ some submitted) ⊎ (job.status ≡ some deferred)

  -- A refused request, and a granted one.
  pub data Answer (r : Outcome ℕ × Table) : Type 0 where
    refused : (e : Error) → r ≡ (raised e, jobs) → Answer r
    granted :
        (job : LandingJob)
        → IsGranted job
        → r ≡ (returned id, store id (set_cancelled job) jobs)
        → Answer r

  abbrev granted_at : LandingJob → ℕ → Outcome ℕ × Table
  granted_at job i = (returned i, store i (set_cancelled job) jobs)

  same_id : (job : LandingJob) → get_job id jobs ≡ some job → job.id ≡ id
  unfolding get_job
  same_id job found = ==-eq job.id id (find-true (λ j. j.id == id) jobs found)

  put_job-Answer :
      (job : LandingJob) → get_job id jobs ≡ some job → Answer (put_job email status job jobs)
  unfolding put_job can_cancel
  put_job-Answer job found = elim (Bool-cases (job.requester_email == email)) [
    | inr other ↦ rw other (refused (problem 403 "Unauthorized") refl)
    | inl mine ↦ rw mine (elim (Bool-cases (status == status_value cancelled)) [
      | inr other ↦ rw other (refused (problem 400 "Invalid status provided") refl)
      | inl asked ↦
          rw asked (elim (Bool-cases (elem job.status (some submitted ∷ some deferred ∷ []))) [
            | inr late ↦ rw late (refused (problem 400 "Landing job could not be cancelled.") refl)
            | inl waits ↦ rw waits (
                granted job
                  (record {
                    found = found;
                    owned = ==-eq job.requester_email email mine;
                    asked = ==-eq status "CANCELLED" asked;
                    waits = can_cancel-waits job waits;
                  })
                  (cancel_job-set job jobs ∙ ap (granted_at job) (same_id job found)))
          ])
    ])
  ]

  -- A request to cancel a job either is refused with an exception and leaves the table as it was; or
  -- the table has a job with the id, the user is its requester, the status asked for is CANCELLED,
  -- the job is SUBMITTED or DEFERRED, the id is returned, and the row is the job with the status
  -- CANCELLED.
  pub put-Answer : Answer (put email id status jobs)
  unfolding put
  put-Answer = answered (get_job id jobs) refl
    where
      answered :
          (found : Option LandingJob)
          → get_job id jobs ≡ found
          → Answer (elim found [
            | none ↦ (raised (not_found id), jobs)
            | some job ↦ put_job email status job jobs
          ])
      answered none e = refused (not_found id) refl
      answered (some job) e = put_job-Answer job e

  -- A row before and after the request: unchanged, or cancelled by its requester while it waited.
  abbrev pub Withdrawn : LandingJob → LandingJob → Type 0
  Withdrawn j j' = (j' ≡ j) ⊎ (IsGranted j × (j' ≡ set_cancelled j))

  -- A request to cancel a job leaves each row of the table as it was, except that the row of the
  -- job that was granted gets the status CANCELLED. The condition is that no two rows have the
  -- same id.
  pub put-Rows : IsKeyed jobs → Rows Withdrawn jobs (put email id status jobs).1
  unfolding get_job
  put-Rows k = elim put-Answer [
    | refused e q ↦
        subst (Rows Withdrawn jobs) (sym (ap (λ p. p.1) q))
          (Rows-same Withdrawn jobs (λ x. inl refl))
    | granted job g q ↦ subst (Rows Withdrawn jobs) (sym (ap (λ p. p.1) q)) (
        subst (λ i. Rows Withdrawn jobs (store i (set_cancelled job) jobs)) (same_id job g.found)
          (Rows-store Withdrawn job (set_cancelled job) jobs (λ x. inl refl) (inr (g, refl))
            (find-All (λ old. Identifies old jobs) (λ j. j.id == id) jobs (keyed jobs k) g.found)))
  ]

  -- After a request that returns, the job with the id is read with the status CANCELLED.
  pub put-get :
      {i : ℕ} {jobs' : Table}
      → put email id status jobs ≡ (returned i, jobs')
      → (commit_id : String) × (get id jobs'
          ≡ returned (record { id = id; status = "CANCELLED"; commit_id = commit_id }))
  put-get {i} {jobs'} h = elim put-Answer [
    | refused e q ↦ absurd (cc)
    | granted job g q ↦
        let read : get_job id jobs' ≡ some (set_cancelled job) =
          subst (λ t. get_job id t ≡ some (set_cancelled job)) (ap (λ p. p.1) (sym q ∙ h))
            (get_job-store id job (set_cancelled job) jobs g.found (same_id job g.found)) in
        (job.landed_commit_id, get-cancelled id job jobs' read (same_id job g.found))
  ]

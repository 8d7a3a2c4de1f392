-- ===== src/Submission/Post/Unnoticed.antt =====
-- What the check under the lock does not see.
use lando_api.Submission.Assess.{Services}
use lando_api.Common.{
  option_eq, map-append, nat_eq, append_nil, suc, inr, inl, refl, ◌∙◌, ap, keep-append, some,
  Bool-cases, ◌∷◌, [], ◌++◌, ◌==◌, false, keep, map, ◌≡◌, ◌≢◌, String, Bool, List, ℕ,
}
use lando_api.Landing.Job.{has_revision, LandingJob}
use lando_api.Submission.Post.{
  revision_ids, is_active, new_job, required_email, add_job, create_job, rivals,
}
use lando_api.Landing.Revision.{Revision}
use lando_api.Submission.Tables.{
  loaded, add_revisions, with_revisions, JobTables, revisions_query, Association,
}
use lando_api.Landing.Repo.{Repo}
use lando_api.Common.Exec.{Outcome, returned}
use lando_api.Submission.Tables.Landed.{
  rows_with-IsUnused, no_values, rows_with, keep-IsUnused, add_revisions-rows, with_revisions-same,
}
use lando_api.Submission.Post.Ending.{IsFresh}

-- A job that was added and not yet submitted changes nothing that the query shows of the others.
associated-others :
    (id job : ℕ) (rows : List Association) (keys : List ℕ)
    → id ≢ job
    → keep (λ a. a.landing_job_id == id) (rows ++ add_revisions job keys)
      ≡ keep (λ a. a.landing_job_id == id) rows
associated-others id job rows keys n =
    keep-append (λ a. a.landing_job_id == id) rows (add_revisions job keys)
    ∙ ap (λ l. keep (λ a. a.landing_job_id == id) rows ++ l)
        (ap (keep (λ a. a.landing_job_id == id)) (add_revisions-rows job 0 keys)
          ∙ keep-IsUnused id (rows_with job no_values 0 keys)
              (rows_with-IsUnused id job no_values 0 keys n))
    ∙ append_nil (keep (λ a. a.landing_job_id == id) rows)

with_revisions-others :
    (revisions : List Revision) (rows : List Association) (job : ℕ) (keys : List ℕ)
    (jobs : List LandingJob)
    → IsFresh job jobs
    → map (with_revisions revisions (rows ++ add_revisions job keys)) jobs
      ≡ map (with_revisions revisions rows) jobs
with_revisions-others revisions rows job keys [] h = refl
with_revisions-others revisions rows job keys (x ∷ jobs) h =
    ap (λ l. with_revisions revisions (rows ++ add_revisions job keys) x ∷ l)
      (with_revisions-others revisions rows job keys jobs h.1)
    ∙ ap (λ l. l ∷ map (with_revisions revisions rows) jobs)
        (with_revisions-same revisions rows (add_revisions job keys) x
          (associated-others x.id job rows keys h.0))

-- A job without a status is not counted.
keep-last :
    (p q : LandingJob → Bool) (jobs : List LandingJob) (x : LandingJob)
    → q x ≡ false
    → keep q (keep p (jobs ++ x ∷ [])) ≡ keep q (keep p jobs)
keep-last p q [] x h = elim (Bool-cases (p x)) [ inl t ↦ rw t (rw h refl) | inr f ↦ rw f refl ]
keep-last p q (y ∷ jobs) x h = elim (Bool-cases (p y)) [
  | inl t ↦ rw t (elim (Bool-cases (q y)) [
    | inl u ↦ rw u (ap (λ l. y ∷ l) (keep-last p q jobs x h))
    | inr u ↦ rw u (keep-last p q jobs x h)
  ])
  | inr f ↦ rw f (keep-last p q jobs x h)
]

rivals-add_job :
    (now : ℕ) (email : String) (repo : Repo) (keys others : List ℕ) (t : JobTables)
    → IsFresh t.next_job t.jobs
    → rivals others (add_job now email repo keys t).1 ≡ rivals others t
unfolding rivals add_job new_job is_active revisions_query loaded with_revisions
rivals-add_job now email repo keys others t h =
    let new = new_job t.next_job now email repo in
    let rows = t.associations ++ add_revisions t.next_job keys in
    let ids = revision_ids others t.revisions in
    let wanted = has_revision ids in
    ap (λ l. keep is_active (keep wanted l))
      (map-append (with_revisions t.revisions rows) t.jobs (new ∷ []))
    ∙ keep-last wanted is_active (map (with_revisions t.revisions rows) t.jobs)
        (with_revisions t.revisions rows new) refl
    ∙ ap (λ l. keep is_active (keep wanted l))
        (with_revisions-others t.revisions t.associations t.next_job keys t.jobs h)

module _ {G : Type 0} (services : Services G) where
  create_job-none :
      (email : String) (repo : Repo) (keys : List ℕ) (t : JobTables)
      → rivals keys t ≡ []
      → create_job services (some email) repo keys t ≡ add_job services.now email repo keys t
  unfolding create_job required_email
  create_job-none email repo keys t r = rw (r, create_job) refl

  -- On tables whose next job id is in no row, if no job that waits or runs has one of the revisions,
  -- then two requests for them both get a job, when the second takes the lock before the first has
  -- submitted its job: the new job has no status at the commit that ends the lock.
  pub create_job-unnoticed :
      (first second : String) (repo : Repo) (keys : List ℕ) (t : JobTables)
      → IsFresh t.next_job t.jobs
      → rivals keys t ≡ []
      → ((create_job services (some first) repo keys t).0 ≡ returned t.next_job)
        × ((create_job services
              (some second)
              repo
              keys
              (create_job services (some first) repo keys t).1).0
            ≡ returned (suc t.next_job))
  unfolding add_job
  create_job-unnoticed first second repo keys t h r =
      let one = create_job-none first repo keys t r in
      let u = (add_job services.now first repo keys t).1 in
      let two =
        create_job-none second repo keys u
          (rivals-add_job services.now first repo keys keys t h ∙ r) in
      (
        ap (λ c. c.0) one,
        ap (λ (c : Outcome ℕ × JobTables). (create_job services (some second) repo keys c.1).0) one
            ∙ ap (λ c. c.0) two,
      )

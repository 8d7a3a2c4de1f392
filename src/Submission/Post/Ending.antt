-- ===== src/Submission/Post/Ending.antt =====
-- What is behind the creation of a job leaves in the table of jobs.
use lando_api.Submission.Tables.{
  JobTables, sort_revisions, set_landed_revision_diffs, revision_keys,
}
use lando_api.Common.Exec.{
  pure, ◌>>◌, continue, value_error, Error, raised, returned, for_each, Outcome,
}
use lando_api.Common.{
  true, nat_eq, Bool-cases, length, map, inr, inl, ==-ne, ==-refl, ◌⊎◌, ◌∙◌, ◌==◌, ap, some, ◌++◌,
  Option, refl, [], or_default, ◌≢◌, ◌∷◌, All, String, ◌≡◌, List, ℕ,
}
use lando_api.Submission.Assess.{Services}
use lando_api.Submission.Post.{Granted, finish_post, submit_job, update_job, remove_tag}
use lando_api.Landing.Job.{submitted, LandingJobStatus, LandingJob}
use lando_api.Submission.Prepare.Kept.{continue-Keeps, Keeps}

-- The job with `id` is in no row.
abbrev pub IsFresh : ℕ → List LandingJob → Type 0
IsFresh id jobs = All (λ job. job.id ≢ id) jobs

module _ {G : Type 0} (services : Services G) where
  pub remove_tags-Keeps :
      (phids : List String) (s : JobTables) → Keeps s (for_each phids (remove_tag services) s).1
  unfolding remove_tag for_each
  remove_tags-Keeps [] s = (refl, refl, refl)
  remove_tags-Keeps (phid ∷ phids) s =
      continue-Keeps (remove_tag services phid s).0 _ s (remove_tag services phid s).1
        (sent (services.remove_project phid (or_default services.checkin_project_phid "")) refl)
        λ u t. remove_tags-Keeps phids t
    where
      sent :
          (o : Outcome (Unit {0}))
          → services.remove_project phid (or_default services.checkin_project_phid "") ≡ o
          → Keeps s (remove_tag services phid s).1
      sent (returned u) e = rw (e, remove_tag) (refl, refl, refl)
      sent (raised x) e = rw (e, remove_tag) (refl, refl, refl)

pub update_job-last :
    (id : ℕ) (f : LandingJob → LandingJob) (jobs : List LandingJob) (job : LandingJob)
    → IsFresh id jobs
    → job.id ≡ id
    → update_job id f (jobs ++ job ∷ []) ≡ jobs ++ f job ∷ []
unfolding update_job
update_job-last id f [] job h e =
    let t : (job.id == id) ≡ true = ap (λ i. i == id) e ∙ ==-refl id in rw t refl
update_job-last id f (x ∷ jobs) job h e =
    rw (==-ne x.id id h.0) (ap (λ l. x ∷ l) (update_job-last id f jobs job h.1 e))

abbrev pub mismatch : Error
mismatch = value_error "List of revisions does not match associated revisions"

abbrev pub with_status : Option LandingJobStatus → LandingJob → LandingJob
with_status status job = record job { status = status }

-- The job is submitted, or the exception leaves it without a status.
submit_job-jobs :
    (job : ℕ) (prepared : List (ℕ × List ℕ)) (s : JobTables)
    → (((submit_job job prepared s).0 ≡ returned tt)
        × ((submit_job job prepared s).1.jobs
            ≡ update_job job (with_status (some submitted)) s.jobs))
      ⊎ (((submit_job job prepared s).0 ≡ raised mismatch)
          × ((submit_job job prepared s).1.jobs ≡ s.jobs))
unfolding submit_job sort_revisions set_landed_revision_diffs
submit_job-jobs job prepared s =
    elim (Bool-cases
      (length (map (λ p. p.0) prepared) == length (revision_keys job s.associations))) [
        | inl t ↦ rw t (inl (refl, refl))
        | inr f ↦ rw f (inr (refl, refl))
      ]

module _ {G : Type 0} (services : Services G) where
  -- The last job is `new`, submitted; or the outcome is the exception of `sort_revisions`.
  abbrev pub Ended : List LandingJob → LandingJob → Outcome ℕ × JobTables → Type 0
  Ended jobs new out =
      (status : Option LandingJobStatus) × (out.1.jobs ≡ jobs ++ with_status status new ∷ [])
      × ((status ≡ some submitted) ⊎ ((status ≡ new.status) × (out.0 ≡ raised mismatch)))

  pub finish_post-Ended :
      (granted : Granted) (prepared : List (ℕ × List ℕ)) (jobs : List LandingJob) (new : LandingJob)
      (s : JobTables)
      → IsFresh new.id jobs
      → s.jobs ≡ jobs ++ new ∷ []
      → Ended jobs new (finish_post services granted prepared new.id s)
  unfolding finish_post
  finish_post-Ended granted prepared jobs new s h e =
      submitted_or_not (submit_job new.id prepared s).0 refl (submit_job-jobs new.id prepared s)
    where
      submitted_or_not :
          (r : Outcome (Unit {0}))
          → (submit_job new.id prepared s).0 ≡ r
          → (((submit_job new.id prepared s).0 ≡ returned tt)
              × ((submit_job new.id prepared s).1.jobs
                  ≡ update_job new.id (with_status (some submitted)) s.jobs))
            ⊎ (((submit_job new.id prepared s).0 ≡ raised mismatch)
                × ((submit_job new.id prepared s).1.jobs ≡ s.jobs))
          → Ended jobs new (
              continue r
                (λ _. for_each granted.checkin_phids (remove_tag services) >> pure new.id)
                (submit_job new.id prepared s).1)
      submitted_or_not (returned u) q (inl (a, b)) =
          let k =
            continue-Keeps
              (for_each granted.checkin_phids (remove_tag services)
                (submit_job new.id prepared s).1).0
              (λ _. pure new.id) (submit_job new.id prepared s).1 _
              (remove_tags-Keeps services granted.checkin_phids (submit_job new.id prepared s).1)
              (λ u t. (refl, refl, refl)) in
          (
            some submitted,
            k.0
                ∙ b
                ∙ ap (update_job new.id (with_status (some submitted))) e
                ∙ update_job-last new.id (with_status (some submitted)) jobs new h refl,
            inl refl,
          )
      submitted_or_not (raised x) q (inl (a, b)) = absurd (cc)
      submitted_or_not (returned u) q (inr (a, b)) = absurd (cc)
      submitted_or_not (raised x) q (inr (a, b)) =
          let same : x ≡ mismatch = cc in (new.status, b ∙ e, inr (refl, ap raised same))

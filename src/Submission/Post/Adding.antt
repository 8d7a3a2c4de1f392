-- ===== src/Submission/Post/Adding.antt =====
-- What a request adds to the table of jobs, on every branch.
use lando_api.Submission.Tables.{loaded, JobTables}
use lando_api.Common.Exec.{integrity_error, problem, continue, Error, raised, returned, Outcome}
use lando_api.Common.{
  nat_eq, sym, subst, none, map, inr, inl, ◌⊎◌, ap, some, ◌++◌, Option, refl, [], ◌∷◌, String, ◌≡◌,
  List, ℕ,
}
use lando_api.Submission.Assess.{User, Services}
use lando_api.Submission.Post.{
  land_granted, post, add_job, required_email, new_job, rivals, create_job, grant, settle, Granted,
  finish_post,
}
use lando_api.Landing.Job.{LandingJob}
use lando_api.Submission.Prepare.Kept.{prepare_revisions-Keeps, Keeps}
use lando_api.Submission.Request.{TransplantRequest}
use lando_api.Submission.Prepare.{prepare_revisions}
use lando_api.Assessment.Acknowledgement.{raise_if_blocked_or_unacknowledged}
use lando_api.Landing.Repo.{Repo}
use lando_api.Submission.Post.Ending.{finish_post-Ended, IsFresh, Ended}

module _ {G : Type 0} (services : Services G) where
  -- The first part of a request, up to the new job, with what the job was added for.
  abbrev pub Added : User → TransplantRequest → JobTables → Outcome ℕ × JobTables → Type 0
  Added user request t out =
      (granted : Granted) × (email : String) × (prepared : List (ℕ × List ℕ)) × (mid : JobTables)
      × (grant services user (loaded t) request ≡ returned granted)
      × (prepare_revisions services granted.plan granted.to_land t ≡ (returned prepared, mid))
      × (user.email ≡ some email)
      × (rivals (map (λ p. p.0) prepared) mid ≡ [])
      × Ended services t.jobs (new_job t.next_job services.now email granted.plan.repo) out

  abbrev pub Unchanged : JobTables → Outcome ℕ × JobTables → Type 0
  Unchanged t out = Keeps t out.1 × (e : Error) × (out.0 ≡ raised e)

  -- Whether a job is made: an exception changes nothing, and else no rival is found.
  pub create_job-cases :
      (email : Option String) (repo : Repo) (keys : List ℕ) (mid : JobTables)
      (found : List LandingJob)
      → rivals keys mid ≡ found
      → ((e : Error) × (create_job services email repo keys mid ≡ (raised e, mid)))
        ⊎ ((found ≡ [])
            × (m : String) × (email ≡ some m)
            × (create_job services email repo keys mid ≡ add_job services.now m repo keys mid))
  unfolding create_job raise_if_blocked_or_unacknowledged required_email
  create_job-cases email repo keys mid (x ∷ found) r =
      inl (problem 400 "Landing is Blocked", rw (r, create_job) refl)
  create_job-cases none repo keys mid [] r =
      inl (integrity_error "requester_email", rw (r, create_job) refl)
  create_job-cases (some m) repo keys mid [] r = inr (refl, m, refl, rw (r, create_job) refl)

  module _ (user : User) (request : TransplantRequest) (t : JobTables)
      (fresh : IsFresh t.next_job t.jobs) where
    abbrev Result : Outcome ℕ × JobTables → Type 0
    Result out = Unchanged t out ⊎ Added user request t out

    ended :
        (granted : Granted) (prepared : List (ℕ × List ℕ)) (m : String) (n : ℕ)
        → n ≡ t.next_job
        → (s : JobTables) → s.jobs ≡ t.jobs ++ new_job n services.now m granted.plan.repo ∷ []
        → Ended services t.jobs
            (new_job t.next_job services.now m granted.plan.repo)
            (finish_post services granted prepared n s)
    unfolding new_job
    ended granted prepared m n e =
        subst
          (λ i.
            (s : JobTables)
            → s.jobs ≡ t.jobs ++ new_job i services.now m granted.plan.repo ∷ []
            → Ended services t.jobs (new_job t.next_job services.now m granted.plan.repo)
                (finish_post services granted prepared i s))
          (sym e)
          (λ s q.
            finish_post-Ended services granted prepared t.jobs
              (new_job t.next_job services.now m granted.plan.repo) s fresh q)

    settled :
        (granted : Granted) (prepared : List (ℕ × List ℕ)) (mid : JobTables)
        → grant services user (loaded t) request ≡ returned granted
        → prepare_revisions services granted.plan granted.to_land t ≡ (returned prepared, mid)
        → Keeps t mid
        → Result (settle services user granted prepared mid)
    unfolding settle add_job
    settled granted prepared mid g p k =
        let keys = map (λ p. p.0) prepared in
        let go = λ (c : Outcome ℕ × JobTables).
          continue c.0 (λ job. finish_post services granted prepared job) c.1 in
        elim (create_job-cases user.email granted.plan.repo keys mid (rivals keys mid) refl) [
          | inl (e, c) ↦ subst Result (sym (ap go c)) (inl (k, e, refl))
          | inr (r, m, q, c) ↦ subst Result (sym (ap go c)) (
              inr (
                granted,
                m,
                prepared,
                mid,
                g,
                p,
                q,
                r,
                ended granted prepared m mid.next_job k.2
                    (add_job services.now m granted.plan.repo keys mid).1
                    (ap (λ jobs. jobs ++ new_job mid.next_job services.now m granted.plan.repo ∷ [])
                      k.0),
              ))
        ]

    landed :
        (granted : Granted)
        → grant services user (loaded t) request ≡ returned granted
        → (prepared : Outcome (List (ℕ × List ℕ))) (mid : JobTables)
        → prepare_revisions services granted.plan granted.to_land t ≡ (prepared, mid)
        → Keeps t mid
        → Result (continue prepared (settle services user granted) mid)
    landed granted g (returned prepared) mid p k = settled granted prepared mid g p k
    landed granted g (raised e) mid p k = inl (k, e, refl)

    granted_or_not :
        (o : Outcome Granted)
        → grant services user (loaded t) request ≡ o
        → Result (continue o (land_granted services user) t)
    unfolding land_granted
    granted_or_not (raised e) g = inl ((refl, refl, refl), e, refl)
    granted_or_not (returned granted) g =
        let out = prepare_revisions services granted.plan granted.to_land t in
        landed granted g out.0 out.1 refl
          (prepare_revisions-Keeps services granted.plan granted.to_land t)

    -- On tables whose next job id is in no row, a request either raises and leaves the tables of jobs
    -- and associations as they were, or adds one job at the end of the table of jobs and changes no job
    -- before it. Then the request was granted, its patches were built, no job that waits or runs had
    -- one of its revisions, and the new job names the user and the repository. The new job is
    -- SUBMITTED, or it has no status and the outcome is the exception of `sort_revisions`.
    pub post-Added : Result (post services user request t)
    unfolding post
    post-Added = granted_or_not (grant services user (loaded t) request) refl

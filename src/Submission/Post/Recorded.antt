-- ===== src/Submission/Post/Recorded.antt =====
-- The job that a granted request leaves, with the path that it shows.
use lando_api.Submission.Assess.{User, Services}
use lando_api.Common.Exec.{◌>>◌, raised, pure, returned, continue, Outcome, for_each}
use lando_api.Common.{
  inr, ◌⊎◌, inl, suc, sym, subst, ap, refl, ◌∙◌, or_default, map, [], some, ◌++◌, ◌∷◌, ◌≡◌, String,
  ℕ, List,
}
use lando_api.Submission.Tables.{
  loaded, add_revisions, Association, set_landed_revision_diffs, landed_revisions, JobTables,
}
use lando_api.Submission.Post.{
  rivals, add_job, land_granted, post, settle, new_job, grant, update_job, Granted, finish_post,
  remove_tag,
}
use lando_api.Submission.Post.Path.{submitted-shown, submit_job-returned, submitted_tables}
use lando_api.Landing.Job.{submitted, LandingJob}
use lando_api.Submission.Post.Adding.{create_job-cases, Unchanged}
use lando_api.Submission.Tables.Shown.{Distinct, HasRows, shown}
use lando_api.Submission.Tables.Updates.{IsUnused}
use lando_api.Submission.Request.{TransplantRequest}
use lando_api.Submission.Tables.Rows.{IsSound}
use lando_api.Submission.Prepare.Built.{prepare_revisions-Builds, Builds, pairs_of}
use lando_api.Submission.Prepare.Kept.{prepare_revisions-Keeps, Keeps}
use lando_api.Submission.Prepare.{prepare_revisions}
use lando_api.Submission.Post.Ending.{with_status, IsFresh, remove_tags-Keeps, update_job-last}

module _ {G : Type 0} (services : Services G) where
  remove_tag-shown :
      (job : ℕ) (phid : String) (s : JobTables)
      → landed_revisions job (remove_tag services phid s).1 ≡ landed_revisions job s
  unfolding remove_tag landed_revisions
  remove_tag-shown job phid s =
      sent (services.remove_project phid (or_default services.checkin_project_phid "")) refl
    where
      sent :
          (o : Outcome (Unit {0}))
          → services.remove_project phid (or_default services.checkin_project_phid "") ≡ o
          → landed_revisions job (remove_tag services phid s).1 ≡ landed_revisions job s
      sent (returned u) e = rw (e, remove_tag) refl
      sent (raised x) e = rw (e, remove_tag) refl

  remove_tags-shown :
      (job : ℕ) (phids : List String) (s : JobTables)
      → landed_revisions job (for_each phids (remove_tag services) s).1 ≡ landed_revisions job s
  unfolding for_each
  remove_tags-shown job [] s = refl
  remove_tags-shown job (phid ∷ phids) s =
      after (remove_tag services phid s).0 (remove_tag services phid s).1
        (remove_tag-shown job phid s) (remove_tags-shown job phids)
    where
      after :
          (r : Outcome (Unit {0})) (t : JobTables)
          → landed_revisions job t ≡ landed_revisions job s
          → ((u : JobTables)
              → landed_revisions job (for_each phids (remove_tag services) u).1
                ≡ landed_revisions job u)
          → landed_revisions job (continue r (λ _. for_each phids (remove_tag services)) t).1
            ≡ landed_revisions job s
      after (returned u) t h k = k t ∙ h
      after (raised e) t h k = h

  continue-pure :
      (P : JobTables → Type 0) (job : ℕ) (r : Outcome (Unit {0})) (t : JobTables)
      → P t
      → P (continue r (λ _. pure job) t).1
  continue-pure P job (returned u) t h = h
  continue-pure P job (raised e) t h = h

  -- The last row of the jobs is the new one, SUBMITTED, and it shows the pairs.
  abbrev pub Submits : List LandingJob → LandingJob → List (ℕ × ℕ) → JobTables → Type 0
  Submits jobs new pairs t =
      (t.jobs ≡ jobs ++ with_status (some submitted) new ∷ [])
      × (landed_revisions new.id t ≡ map shown pairs)

  finish_post-Submits :
      (granted : Granted) (prepared : List (ℕ × List ℕ)) (s : JobTables) (jobs : List LandingJob)
      (new : LandingJob) (front : List Association) (pairs : List (ℕ × ℕ))
      → IsFresh new.id jobs
      → s.jobs ≡ jobs ++ new ∷ []
      → s.associations ≡ front ++ add_revisions new.id (map (λ m. m.0) prepared)
      → IsUnused new.id front
      → HasRows s.revisions (map (λ m. m.0) prepared) pairs
      → Distinct pairs
      → Submits jobs new pairs (finish_post services granted prepared new.id s).1
  unfolding finish_post submitted_tables set_landed_revision_diffs
  finish_post-Submits granted prepared s jobs new front pairs fresh j a unused rows d =
      let job = new.id in
      let t = submitted_tables job prepared s in
      let tags = for_each granted.checkin_phids (remove_tag services) in
      let done = submit_job-returned job prepared s front pairs a unused rows d in
      let kept = remove_tags-Keeps services granted.checkin_phids t in
      let listed : t.jobs ≡ jobs ++ with_status (some submitted) new ∷ [] =
        ap (update_job job (with_status (some submitted))) j
        ∙ update_job-last job (with_status (some submitted)) jobs new fresh refl in
      let path =
        remove_tags-shown job granted.checkin_phids t
        ∙ submitted-shown job prepared s front pairs a unused rows d in
      subst
        (λ (c : Outcome (Unit {0}) × JobTables).
          Submits jobs new pairs (continue c.0 (λ _. tags >> pure job) c.1).1)
        (sym done)
        (continue-pure (Submits jobs new pairs) job (tags t).0 (tags t).1 (kept.0 ∙ listed, path))

  -- A request that is granted, with the job that it leaves.
  abbrev pub Records : User → TransplantRequest → JobTables → JobTables → Type 0
  Records user request t u =
      (granted : Granted) × (email : String) × (grant services user (loaded t) request
        ≡ returned granted)
      × (user.email ≡ some email)
      × Submits t.jobs (new_job t.next_job services.now email granted.plan.repo)
          (pairs_of granted.to_land) u

  module _ (user : User) (request : TransplantRequest) (t : JobTables)
      (fresh : IsFresh t.next_job t.jobs) (unused : IsUnused t.next_job t.associations)
      (sound : IsSound t)
      (distinct : (granted : Granted)
        → grant services user (loaded t) request ≡ returned granted
        → Distinct (pairs_of granted.to_land)) where
    abbrev Either : Outcome ℕ × JobTables → Type 0
    Either out = Unchanged services t out ⊎ Records user request t out.1

    recorded :
        (granted : Granted) (prepared : List (ℕ × List ℕ)) (mid : JobTables) (n : ℕ)
        → grant services user (loaded t) request ≡ returned granted
        → Keeps t mid
        → HasRows mid.revisions (map (λ m. m.0) prepared) (pairs_of granted.to_land)
        → (email : String) → user.email ≡ some email
        → t.next_job ≡ n
        → Records user request t
            (finish_post services granted prepared n (record mid {
              jobs = mid.jobs ++ new_job n services.now email granted.plan.repo ∷ [];
              associations = mid.associations ++ add_revisions n (map (λ m. m.0) prepared);
              next_job = suc n;
            })).1
    unfolding new_job
    recorded granted prepared mid n g k rows email m e =
        let repo = granted.plan.repo in
        let new = new_job t.next_job services.now email repo in
        let keys = map (λ (m : ℕ × List ℕ). m.0) prepared in
        subst
          (λ i.
            Records user request t
              (finish_post services granted prepared i (record mid {
                jobs = mid.jobs ++ new_job i services.now email repo ∷ [];
                associations = mid.associations ++ add_revisions i keys;
                next_job = suc i;
              })).1)
          e
          (
            granted,
            email,
            g,
            m,
            finish_post-Submits granted prepared
                (record mid {
                  jobs = mid.jobs ++ new ∷ [];
                  associations = mid.associations ++ add_revisions t.next_job keys;
                  next_job = suc t.next_job;
                })
                t.jobs new t.associations (pairs_of granted.to_land) fresh
                (ap (λ l. l ++ new ∷ []) k.0) (ap (λ l. l ++ add_revisions t.next_job keys) k.1)
                unused rows (distinct granted g),
          )

    settled :
        (granted : Granted) (prepared : List (ℕ × List ℕ)) (mid : JobTables)
        → grant services user (loaded t) request ≡ returned granted
        → Keeps t mid
        → HasRows mid.revisions (map (λ m. m.0) prepared) (pairs_of granted.to_land)
        → Either (settle services user granted prepared mid)
    unfolding settle add_job
    settled granted prepared mid g k rows =
        let keys = map (λ (m : ℕ × List ℕ). m.0) prepared in
        let go = λ (c : Outcome ℕ × JobTables).
          continue c.0 (λ job. finish_post services granted prepared job) c.1 in
        elim (create_job-cases services user.email granted.plan.repo keys mid (rivals keys mid)
          refl) [
            | inl (e, c) ↦ subst Either (sym (ap go c)) (inl (k, e, refl))
            | inr (r, email, m, c) ↦
                subst Either (sym (ap go c))
                  (inr (recorded granted prepared mid mid.next_job g k rows email m (sym k.2)))
          ]

    built :
        (granted : Granted)
        → grant services user (loaded t) request ≡ returned granted
        → (prepared : Outcome (List (ℕ × List ℕ))) (mid : JobTables) → Keeps t mid
        → Builds services granted.to_land t (prepared, mid)
        → Either (continue prepared (settle services user granted) mid)
    built granted g (returned prepared) mid k b = settled granted prepared mid g k b.2
    built granted g (raised e) mid k b = inl (k, e, refl)

    granted_or_not :
        (o : Outcome Granted)
        → grant services user (loaded t) request ≡ o
        → Either (continue o (land_granted services user) t)
    unfolding land_granted
    granted_or_not (raised e) g = inl ((refl, refl, refl), e, refl)
    granted_or_not (returned granted) g =
        let out = prepare_revisions services granted.plan granted.to_land t in
        built granted g out.0 out.1
          (prepare_revisions-Keeps services granted.plan granted.to_land t)
          (prepare_revisions-Builds services granted.plan granted.to_land t sound
            (distinct granted g))

    -- On tables with unique keys, whose next keys are unused, a request whose granted path has no
    -- revision twice either raises and leaves the tables of jobs and associations as they were; or it
    -- was granted, and one job of the user and the repository is added at the end of the table. That
    -- job is SUBMITTED, and its `landed_revisions` are the ids of the granted revisions with the ids of
    -- their diffs, in the order of the path.
    pub post-Recorded : Either (post services user request t)
    unfolding post
    post-Recorded = granted_or_not (grant services user (loaded t) request) refl

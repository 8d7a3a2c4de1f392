-- ===== src/Landing/Worker/Lifecycle.antt =====
-- What one iteration of the landing worker does to the table of jobs.
use lando_api.Common.{
  option_eq, bool_eq, nat_eq, false, ◌==◌, length, sym, subst, not, none, refl, inr, inl, ◌∙◌, true,
  some, ◌⊎◌, String, ◌≡◌, Option, ℕ, List, Bool,
}
use lando_api.Landing.Job.{
  landed, failed, deferred, submitted, in_progress, LandingJobStatus, LandingJob,
}
use lando_api.Landing.Worker.{
  applicable_repos, lookup_repo, claimed, refresh_enabled_repos, next_job, throttle, processed,
  process, handle, run, loop, Worker, prepare, Iteration, Setup,
}
use lando_api.Landing.Run.{Work}
use lando_api.Landing.Run.Verdict.{
  Escaped, after_landing, after_failure, job_deferred, gave_up, still_open, format_failed, Broken,
  job_failed, job_landed, Verdict,
}
use lando_api.Landing.Queue.{is_queued}
use lando_api.Landing.Table.{
  keyed, store-store, Rows-same, Rows-store, store, Rows, Identifies, IsKeyed,
}
use lando_api.Landing.Repo.{Repo}
use lando_api.Common.Exec.{Error, ◌>>◌, gets, when, ◌>>=◌, Exec, raised, returned, Outcome}
use lando_api.Common.Exec.Ends.{Ends-bind, Ends}
use lando_api.Landing.Run.Main.Outcomes.{run_job-Ends, Final}
use lando_api.Landing.Run.Main.{run_job}
use lando_api.Landing.Queue.Next.{next_job-All, next_job-precedes, is_queued-status}

abbrev pub IsRaised : {A : Type 0} → Outcome A → Type 0
IsRaised o = (x : Error) × (o ≡ raised x)

-- The statuses in which an iteration with an outcome can leave the job that it claims. Only an
-- exception leaves the first, and never the second.
pub data IsAttempted (o : Outcome (Unit {0})) (status : Option LandingJobStatus) : Type 0 where
  was_interrupted : status ≡ some in_progress → IsRaised o → IsAttempted o status
  was_deferred : status ≡ some deferred → o ≡ returned tt → IsAttempted o status
  has_failed : status ≡ some failed → IsAttempted o status
  has_landed : status ≡ some landed → IsAttempted o status

-- The statuses from which the worker claims a job.
pub data IsClaimable (status : Option LandingJobStatus) : Type 0 where
  is_submitted : status ≡ some submitted → IsClaimable status
  is_in_progress : status ≡ some in_progress → IsClaimable status
  is_deferred : status ≡ some deferred → IsClaimable status

-- A row before and after an iteration with an outcome: unchanged, or claimed and attempted.
abbrev pub Turned : Outcome (Unit {0}) → LandingJob → LandingJob → Type 0
Turned o j j' = (j' ≡ j) ⊎ (IsClaimable j.status × IsAttempted o j'.status)

claimable :
    (repositories : Option (List String)) (grace_seconds now : ℕ) (j : LandingJob)
    → is_queued repositories grace_seconds now j ≡ true
    → IsClaimable j.status
claimable repositories grace_seconds now j h =
    elim (is_queued-status repositories grace_seconds now j h) [
      | inl e ↦ is_submitted e
      | inr (inl e) ↦ is_in_progress e
      | inr (inr e) ↦ is_deferred e
    ]

-- The outcome of an iteration whose run ends.
abbrev ending : Outcome Bool → Outcome (Unit {0})
ending o = elim o [ returned b ↦ returned tt | raised e ↦ raised e ]

module _ {W : Type 0} where
  -- The status that a run with an outcome leaves.
  abbrev Left : Outcome Bool × Work W → Type 0
  Left r = IsAttempted (ending r.0) r.1.session.job.status

  Left-Verdict :
      {fmt : Bool} {w w' : Work W} (b : Bool) → Verdict fmt w w' b → Left (returned b, w')
  Left-Verdict b (job_landed _ s) = has_landed s.status_set
  Left-Verdict b (job_failed _ s _) = has_failed s.status_set
  Left-Verdict b (format_failed _ _ s _) = has_failed s.status_set
  Left-Verdict b (gave_up _ _ s _) = has_failed s.status_set
  Left-Verdict b (job_deferred _ s _) = was_deferred s.status_set refl

  Left-Broken :
      {w w' : Work W} (x : Error)
      → w.session.job.status ≡ some in_progress
      → Broken w w'
      → Left (raised x, w')
  Left-Broken x e (still_open o) = was_interrupted (o.status ∙ e) (x, refl)
  Left-Broken x e (after_failure s) = has_failed s.status_set
  Left-Broken x e (after_landing s) = has_landed s.status_set

module _ {W : Type 0} (setup : Setup W) (turn : Iteration W) where
  run-Left :
      (job : LandingJob) (repo : Option Repo) (w : Work W)
      → w.session.job.status ≡ some in_progress
      → Left (run setup turn job repo w)
  unfolding run
  run-Left job none w e = was_interrupted e (_, refl)
  run-Left job (some repo) w e =
      left_either (run_job turn.services repo (setup.hgrepo job.repository_name) w)
        (run_job-Ends turn.services repo (setup.hgrepo job.repository_name) w)
    where
      left_either :
          (r : Outcome Bool × Work W)
          → Ends (Final turn.services repo (setup.hgrepo job.repository_name) w) (Escaped w) r
          → Left r
      left_either (returned b, w') v = Left-Verdict b v
      left_either (raised x, w') v = Left-Broken x e v

  -- The row of the job is overwritten once, all things considered.
  process-store :
      (job : LandingJob) (w : Worker W)
      → (job' : LandingJob) × IsAttempted (process setup turn job w).0 job'.status
        × ((process setup turn job w).1.jobs ≡ store job.id job' w.jobs)
  unfolding process processed claimed
  process-store job w = (
    _,
    run-Left (claimed setup turn job) (lookup_repo job.repository_name setup.repos) _ refl,
    store-store job.id (claimed setup turn job) _ w.jobs refl,
  )

  process-Rows :
      (job : LandingJob) (w : Worker W)
      → IsClaimable job.status
      → Identifies job w.jobs
      → Rows (Turned (process setup turn job w).0) w.jobs (process setup turn job w).1.jobs
  process-Rows job w c h =
      let (job', a, e) = process-store job w in
      rw e (
        Rows-store (Turned (process setup turn job w).0) job job' w.jobs (λ x. inl refl)
          (inr (c, a)) h)

  handle-Rows :
      (w : Worker W)
      → IsKeyed w.jobs
      → let o = handle setup turn (next_job setup turn w) w in Rows (Turned o.0) w.jobs o.1.jobs
  unfolding handle throttle next_job
  handle-Rows w k = handled _ refl
    where
      handled :
          (found : Option LandingJob)
          → next_job setup turn w ≡ found
          → Rows (Turned (handle setup turn found w).0) w.jobs (handle setup turn found w).1.jobs
      handled none e = Rows-same (Turned (returned tt)) w.jobs (λ x. inl refl)
      handled (some job) e =
          process-Rows job w
            (claimable (some w.enabled_repos) setup.default_grace_seconds turn.now job
              (next_job-precedes setup.default_grace_seconds turn.now (some w.enabled_repos) w.jobs
                e).0)
            (next_job-All setup.default_grace_seconds turn.now (some w.enabled_repos) w.jobs
              (λ old. Identifies old w.jobs) (keyed w.jobs k) e)

  when-jobs :
      (b : Bool) (m : Exec (Worker W) Unit) (w : Worker W)
      → Ends (λ _ w'. w'.jobs ≡ w.jobs) (λ _ _. ⊥) (m w)
      → Ends (λ _ w'. w'.jobs ≡ w.jobs) (λ _ _. ⊥) (when b m w)
  when-jobs true m w h = h
  when-jobs false m w h = refl

  prepare-jobs : (w : Worker W) → Ends (λ _ w'. w'.jobs ≡ w.jobs) (λ _ _. ⊥) (prepare setup turn w)
  unfolding prepare throttle refresh_enabled_repos
  prepare-jobs w =
      Ends-bind (λ _ w'. w'.jobs ≡ w.jobs) (λ _ w'. w'.jobs ≡ w.jobs) (λ _ _. ⊥)
        (when (not (length w.enabled_repos == length (applicable_repos setup turn)))
          (refresh_enabled_repos setup turn))
        (λ _.
          when (w.last_job_finished == some false)
            (throttle setup turn >> refresh_enabled_repos setup turn))
        w (when-jobs _ (refresh_enabled_repos setup turn) w refl)
        (λ _ w' e.
          subst
            (λ l.
              Ends (λ _ v. v.jobs ≡ l) (λ _ _. ⊥)
                (when (w.last_job_finished == some false)
                  (throttle setup turn >> refresh_enabled_repos setup turn) w'))
            e (when-jobs _ (throttle setup turn >> refresh_enabled_repos setup turn) w' refl))

  -- One iteration of the worker leaves each row of the table as it was, or claims it from SUBMITTED,
  -- IN_PROGRESS or DEFERRED and leaves it FAILED or LANDED, or DEFERRED if the iteration returns, or
  -- IN_PROGRESS if an exception leaves the iteration. In particular a failed, landed or cancelled job
  -- is never changed. The condition is that no two rows have the same id.
  pub loop-Rows :
      (w : Worker W)
      → IsKeyed w.jobs
      → Rows (Turned (loop setup turn w).0) w.jobs (loop setup turn w).1.jobs
  unfolding loop
  loop-Rows w k = rows_after (prepare setup turn w) (prepare-jobs w)
    where
      rows_after :
          (r : Outcome (Unit {0}) × Worker W)
          → Ends (λ _ w'. w'.jobs ≡ w.jobs) (λ _ _. ⊥) r
          → let out = ((λ _. r) >>= λ _. gets (next_job setup turn) >>= handle setup turn) w in
            Rows (Turned out.0) w.jobs out.1.jobs
      rows_after (returned _, w') e =
          let out = handle setup turn (next_job setup turn w') w' in
          subst (λ l. Rows (Turned out.0) l out.1.jobs) e (handle-Rows w' (subst IsKeyed (sym e) k))
      rows_after (raised x, w') e = absurd e

-- ===== src/Landing/Worker.antt =====
-- `LandingWorker.loop` and `job_processing` of landoapi/workers/landing_worker.py, and
-- `refresh_enabled_repos` of landoapi/workers/base.py, on the table of jobs.
mod Examples
pub mod Lifecycle
use lando_api.Common.{
  bool_eq, option_eq, false, string_eq, [], length, nat_eq, ◌+◌, ◌∷◌, ◌==◌, not, keep, ◌++◌, some,
  if◌then◌else◌, none, map, ℕ, String, Bool, Option, List,
}
use lando_api.Common.Exec.{
  key_error, raised, returned, raise, when, gets, Outcome, modify, Exec, ◌>>=◌, ◌>>◌,
}
use lando_api.Landing.Job.{in_progress, LandingJob}
use lando_api.Landing.Interface.{HgRepo, Notice, Services}
use lando_api.Landing.Repo.{Repo}
use lando_api.Landing.Run.{Work}
use lando_api.Landing.Queue.{next_job_for_update_query}
use lando_api.Landing.Run.Main.{run_job}
use lando_api.Landing.Table.{store}

-- The worker with the committed table of jobs. `sleeps` holds the seconds of each call of `sleep`.
pub record Worker (W : Type 0) : Type 0 where
  pub jobs : List LandingJob
  pub enabled_repos : List String
  pub last_job_finished : Option Bool
  pub sleeps : List ℕ
  pub checkout : W
  pub notices : List Notice
  pub repo_updates : List String

-- What does not change while the worker runs: the supported repositories by name, their checkouts,
-- and the seconds to sleep.
pub record Setup (W : Type 0) : Type 0 where
  pub repos : List (String × Repo)
  pub hgrepo : String → HgRepo W
  pub sleep_seconds : ℕ
  pub default_grace_seconds : ℕ

-- What the surroundings answer in one iteration: the trees at a refresh, the services of the run,
-- the time of the query, and the seconds that the run takes.
pub record Iteration (W : Type 0) : Type 0 where
  pub tree_is_open : String → Bool
  pub services : Services W
  pub now : ℕ
  pub elapsed_seconds : ℕ

-- `repos[name]`
lookup_repo : String → List (String × Repo) → Option Repo
lookup_repo name [] = none
lookup_repo name ((n, repo) ∷ rest) =
    let other = lookup_repo name rest in if n == name then some repo else other

module _ {W : Type 0} (setup : Setup W) (turn : Iteration W) where
  applicable_repos : List String
  applicable_repos = map (λ p. p.0) setup.repos

  -- Each applicable repository has an entry, so `repos[r]` is found.
  pub refresh_enabled_repos : Exec (Worker W) Unit
  refresh_enabled_repos = modify (λ w. record w {
    enabled_repos = map (λ p. p.0) (keep (λ p. turn.tree_is_open p.1.tree) setup.repos);
  })

  throttle : Exec (Worker W) Unit
  throttle = modify (λ w. record w { sleeps = w.sleeps ++ setup.sleep_seconds ∷ [] })

  -- The refreshes at the start of an iteration.
  pub prepare : Exec (Worker W) Unit
  unfolding applicable_repos refresh_enabled_repos throttle
  prepare = do
    w ← gets (λ w. w)
    when (not (length w.enabled_repos == length applicable_repos)) refresh_enabled_repos
    when (w.last_job_finished == some false) (throttle >> refresh_enabled_repos)

  -- `run_job` on the job that was fetched, if its repository is known.
  pub run : LandingJob → Option Repo → Exec (Work W) Bool
  run job none = raise (key_error job.repository_name)
  run job (some repo) = run_job turn.services repo (setup.hgrepo job.repository_name)

  pub claimed : LandingJob → LandingJob
  claimed job = record job { status = some in_progress; attempts = job.attempts + 1 }

  -- The end of `job_processing`: the duration is set and all is committed, also after an exception.
  pub processed : ℕ → Outcome Bool → Work W → Exec (Worker W) Unit
  processed id result work w = (
    elim result [ returned b ↦ returned tt | raised e ↦ raised e ],
    record w {
      jobs = store id (record work.session.job { duration_seconds = turn.elapsed_seconds }) w.jobs;
      last_job_finished = elim result [ returned b ↦ some b | raised e ↦ w.last_job_finished ];
      checkout = work.checkout;
      notices = work.notices;
      repo_updates = work.repo_updates;
    },
  )

  -- The body of the `with` block: the claim is committed before the run.
  pub process : LandingJob → Exec (Worker W) Unit
  unfolding claimed run lookup_repo processed
  process job w =
      let mine = claimed job in
      let work : Work W = record {
        session = record { job = mine; row = mine };
        checkout = w.checkout;
        notices = w.notices;
        repo_updates = w.repo_updates;
      } in
      let (result, work') = run mine (lookup_repo mine.repository_name setup.repos) work in
      processed job.id result work' (record w { jobs = store job.id mine w.jobs })

  pub handle : Option LandingJob → Exec (Worker W) Unit
  unfolding process throttle
  handle none = throttle
  handle (some job) = process job

  pub next_job : Worker W → Option LandingJob
  next_job w =
      next_job_for_update_query setup.default_grace_seconds turn.now (some w.enabled_repos) w.jobs

  pub loop : Exec (Worker W) Unit
  unfolding prepare handle next_job
  loop = do prepare; job ← gets next_job; handle job

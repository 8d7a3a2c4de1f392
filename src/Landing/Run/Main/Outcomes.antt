-- ===== src/Landing/Run/Main/Outcomes.antt =====
-- What a run of a job comes to, on every way out of `run_job`.
use lando_api.Common.{true, inr, inl, Bool-cases, refl, String, Bool, ◌≡◌}
use lando_api.Common.Exec.{lift, modify, ◌>>=◌, attempt, raised, Error, returned, Outcome, Exec}
use lando_api.Landing.Run.{on_checkout, for_push, Work}
use lando_api.Landing.Run.Verdict.{
  transition-defer, job_deferred, Escaped, after_landing, gave_up, IsOpen, after_failure,
  format_failed, job_failed, IsSettled, still_open, job_landed, IsTold, Verdict, Broken,
}
use lando_api.Landing.Job.{landed, LandingJobStatus}
use lando_api.Landing.Interface.{HgRepo, Services}
use lando_api.Landing.Repo.{Repo}
use lando_api.Landing.Run.Phases.{go, stop, Flow}
use lando_api.Landing.Run.Phases.Steps.{Steps-checkout, Stops, IsOpen-checkout, Steps}
use lando_api.Landing.Run.Main.{conclude, after_push, with_checkout, Landed, run_job}
use lando_api.Common.Exec.Ends.{Ends-weaken, Ends-bind, Ends-raised, Ends-returned, Ends}
use lando_api.Landing.Run.Main.Landing.{after_push-Ends}
use lando_api.Landing.Run.Main.Pushing.{with_checkout-Steps}

module _ {W : Type 0} (fmt : Bool) (w₀ : Work W) where
  IsTold-checkout : (c : W) (w : Work W) → IsTold w₀ w → IsTold w₀ (record w { checkout = c })
  IsTold-checkout c w t = record { identifier = t.identifier; told = t.told }

  IsSettled-checkout :
      {status : LandingJobStatus} (c : W) (w : Work W)
      → IsSettled status w
      → IsSettled status (record w { checkout = c })
  IsSettled-checkout c w s = record { status_set = s.status_set; committed = s.committed }

  Verdict-checkout :
      (c : W) (w : Work W) {b : Bool}
      → Verdict fmt w₀ w b
      → Verdict fmt w₀ (record w { checkout = c }) b
  Verdict-checkout c w (job_landed e s) = job_landed e (IsSettled-checkout c w s)
  Verdict-checkout c w (job_failed e s t) =
      job_failed e (IsSettled-checkout c w s) (IsTold-checkout c w t)
  Verdict-checkout c w (format_failed e on s t) =
      format_failed e on (IsSettled-checkout c w s) (IsTold-checkout c w t)
  Verdict-checkout c w (gave_up e a s n) = gave_up e a (IsSettled-checkout c w s) n
  Verdict-checkout c w (job_deferred e s n) = job_deferred e (IsSettled-checkout c w s) n

  Broken-checkout : (c : W) (w : Work W) → Broken w₀ w → Broken w₀ (record w { checkout = c })
  Broken-checkout c w (still_open o) = still_open (IsOpen-checkout fmt w₀ c w o)
  Broken-checkout c w (after_failure s) = after_failure (IsSettled-checkout c w s)
  Broken-checkout c w (after_landing s) = after_landing (IsSettled-checkout c w s)

  closed :
      {A : Type 0} (c : W) (r : Outcome (Flow A)) (w : Work W)
      → Steps fmt w₀ (r, w)
      → Steps fmt w₀ (r, record w { checkout = c })
  closed c (returned (stop b)) w h = Verdict-checkout c w h
  closed c (returned (go a)) w h = IsOpen-checkout fmt w₀ c w h
  closed c (raised e) w h = Broken-checkout c w h

  for_push-Steps :
      {A : Type 0} (hgrepo : HgRepo W) (email : String) (body : Exec (Work W) (Flow A)) (w : Work W)
      → IsOpen w₀ w
      → ((w' : Work W) → IsOpen w₀ w' → Steps fmt w₀ (body w'))
      → Steps fmt w₀ (for_push hgrepo email body w)
  unfolding for_push on_checkout
  for_push-Steps hgrepo email body w o k =
      Steps-checkout fmt w₀ (hgrepo.open_for_push email)
        (λ _. attempt body >>= λ result. on_checkout (modify hgrepo.close) >>= λ _. lift result) w o
        λ _ w' o'. let (r, w'') = body w' in closed (hgrepo.close w''.checkout) r w'' (k w' o')

module _ {W : Type 0} (services : Services W) (repo : Repo) (hgrepo : HgRepo W) (w : Work W) where
  abbrev pub Final : Bool → Work W → Type 0
  Final b w' = Verdict repo.autoformat_enabled w w' b

  IsOpen-refl : IsOpen w w
  IsOpen-refl = record { status = refl; attempts = refl; notices = refl }

  finish :
      (flow : Flow Landed) (w' : Work W)
      → Stops repo.autoformat_enabled w flow w'
      → Ends Final (Escaped w) (conclude services repo hgrepo flow w')
  unfolding conclude
  finish (stop b) w' v = v
  finish (go result) w' o =
      Ends-weaken Final (Escaped w) (λ b v. (b ≡ true) × IsSettled landed v) (Escaped w)
        (after_push services repo hgrepo result w')
        (after_push-Ends w services repo hgrepo result w') (λ b v h. job_landed h.0 h.1)
        (λ e v h. h)

  run_open : Ends Final (Escaped w) (
      (for_push hgrepo w.session.job.requester_email
            (with_checkout services repo hgrepo w.session.job.revisions)
          >>= conclude services repo hgrepo)
        w)
  run_open =
      let email = w.session.job.requester_email in
      let body = with_checkout services repo hgrepo w.session.job.revisions in
      Ends-bind (Stops repo.autoformat_enabled w) Final (Escaped w) (for_push hgrepo email body)
        (conclude services repo hgrepo) w
        (for_push-Steps repo.autoformat_enabled w hgrepo email body w IsOpen-refl
          (with_checkout-Steps w services repo hgrepo w.session.job.revisions))
        finish

  pub run_job-Ends : Ends Final (Escaped w) (run_job services repo hgrepo w)
  unfolding run_job
  run_job-Ends = elim (Bool-cases (services.is_open repo.tree)) [
    | inl open_tree ↦ rw open_tree run_open
    | inr closed_tree ↦ rw closed_tree (
        rw (transition-defer _ w)
          (job_deferred refl (record { status_set = refl; committed = refl }) refl))
  ]

  -- A run that returns has settled the job and committed it, in one of five ways: it landed, and the
  -- run returns True; it failed, its user was sent the stored error and nothing else, and the run
  -- returns True; it failed in the formatting of a repository with automatic formatting, its user
  -- was told in the same way, and the run returns False; it failed because a commit could not be
  -- converted in at least the fifth attempt, nobody was told, and the run returns True; or it was
  -- deferred, nobody was told, and the run returns False.
  pub run_job-Verdict :
      {b : Bool} {w' : Work W}
      → run_job services repo hgrepo w ≡ (returned b, w')
      → Verdict repo.autoformat_enabled w w' b
  run_job-Verdict e =
      Ends-returned Final (Escaped w) (run_job services repo hgrepo w) run_job-Ends e

  -- An exception that leaves a run finds the job with the status, the attempts and the e-mails that
  -- it had, or failed and committed, or landed and committed.
  pub run_job-Broken :
      {x : Error} {w' : Work W} → run_job services repo hgrepo w ≡ (raised x, w') → Broken w w'
  run_job-Broken e = Ends-raised Final (Escaped w) (run_job services repo hgrepo w) run_job-Ends e

-- ===== src/Landing/Run/Verdict.antt =====
-- What one run of a job comes to: the statement, and the handlers that settle a job.
use lando_api.Common.{refl, ◌≤◌, [], ◌∷◌, false, some, true, ◌++◌, String, Bool, ◌≡◌}
use lando_api.Common.Exec.{Error, returned}
use lando_api.Landing.Run.{transition, on_session, Work}
use lando_api.Landing.Interface.{landing_failure}
use lando_api.Landing.Job.{
  fail, land, defer, deferred, transition_status, landed, LandingJobAction, LandingJobStatus,
  failed,
}
use lando_api.Landing.Job.Transition.{transition_status-accepts, moved, saved, kwargs_of}

module _ {W : Type 0} where
  -- The job is not settled yet, and nobody was told anything.
  pub record IsOpen (w w' : Work W) : Type 0 where
    pub status : w'.session.job.status ≡ w.session.job.status
    pub attempts : w'.session.job.attempts ≡ w.session.job.attempts
    pub notices : w'.notices ≡ w.notices

  -- The status is set and committed.
  pub record IsSettled (status : LandingJobStatus) (w' : Work W) : Type 0 where
    pub status_set : w'.session.job.status ≡ some status
    pub committed : w'.session.row ≡ w'.session.job

  -- The user was sent the error that the job holds, and nothing else was sent.
  pub record IsTold (w w' : Work W) : Type 0 where
    pub identifier : String
    pub told :
        w'.notices
        ≡ w.notices
          ++ landing_failure w'.session.job.requester_email identifier w'.session.job.error
              w'.session.job.id
            ∷ []

  -- The ways in which a run ends, with the value that it returns.
  pub data Verdict (autoformat_enabled : Bool) (w w' : Work W) (b : Bool) : Type 0 where
    job_landed : b ≡ true → IsSettled landed w' → Verdict autoformat_enabled w w' b
    job_failed : b ≡ true → IsSettled failed w' → IsTold w w' → Verdict autoformat_enabled w w' b
    format_failed :
        b ≡ false
        → autoformat_enabled ≡ true
        → IsSettled failed w'
        → IsTold w w'
        → Verdict autoformat_enabled w w' b
    gave_up :
        b ≡ true
        → 5 ≤ w.session.job.attempts
        → IsSettled failed w'
        → w'.notices ≡ w.notices
        → Verdict autoformat_enabled w w' b
    job_deferred :
        b ≡ false
        → IsSettled deferred w'
        → w'.notices ≡ w.notices
        → Verdict autoformat_enabled w w' b

  -- What an exception that leaves a run finds.
  pub data Broken (w w' : Work W) : Type 0 where
    still_open : IsOpen w w' → Broken w w'
    after_failure : IsSettled failed w' → Broken w w'
    after_landing : IsSettled landed w' → Broken w w'

  pub transition-settles :
      (action : LandingJobAction) (v : String) (w : Work W)
      → (on_session (transition_status action true true (kwargs_of action v)) w)
        ≡ (returned tt, record w { session = saved true (moved action v w.session.job) w.session })
  unfolding on_session
  transition-settles action v w = rw (transition_status-accepts true true w.session action v refl)

  pub transition-fail :
      (v : String) (w : Work W)
      → transition fail "message" v w
        ≡ (returned tt, record w { session = saved true (moved fail v w.session.job) w.session })
  unfolding transition
  transition-fail v w = transition-settles fail v w

  pub transition-defer :
      (v : String) (w : Work W)
      → transition defer "message" v w
        ≡ (returned tt, record w { session = saved true (moved defer v w.session.job) w.session })
  unfolding transition
  transition-defer v w = transition-settles defer v w

  pub transition-land :
      (v : String) (w : Work W)
      → transition land "commit_id" v w
        ≡ (returned tt, record w { session = saved true (moved land v w.session.job) w.session })
  unfolding transition
  transition-land v w = transition-settles land v w

  -- The state that a failure and its e-mail lead to, and what an exception leaves there.
  abbrev pub Told : Work W → Unit {0} → Work W → Type 0
  Told w _ w' = IsSettled failed w' × IsTold w w'

  abbrev pub Escaped : Work W → Error → Work W → Type 0
  Escaped w _ w' = Broken w w'

-- ===== src/Landing/Job/Examples.antt =====
-- Changes of the status of a job on small inputs.
use lando_api.Common.{false, not, refl, ◌&&◌, true, [], ◌∷◌, String, ◌≡◌}
use lando_api.Landing.Job.{fail, land, Session, transition_status}
use lando_api.Landing.Samples.{example_job}
use lando_api.Common.Exec.{value_error}
use lando_api.Landing.Job.Transition.{
  transition_status-returned, moved, saved, kwargs_of, transition_status-raised,
}

abbrev open_session : Session
open_session = record { job = example_job; row = example_job }

transition_status-returned_example :
    (v : String) × ((("message", "boom") ∷ []) ≡ kwargs_of fail v)
    × ((true && not true) ≡ false)
    × (saved true (moved fail "boom" example_job) open_session
        ≡ saved true (moved fail v example_job) open_session)
unfolding transition_status
transition_status-returned_example =
    transition_status-returned fail true true (("message", "boom") ∷ []) open_session
      (saved true (moved fail "boom" example_job) open_session) refl

transition_status-raised_example :
    (open_session ≡ open_session)
    × ((message : String) × (value_error "Missing params" ≡ value_error message))
unfolding transition_status
transition_status-raised_example =
    transition_status-raised land true true (("message", "boom") ∷ []) open_session open_session
      refl

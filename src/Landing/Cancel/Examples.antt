-- ===== src/Landing/Cancel/Examples.antt =====
-- Requests to cancel a job on a small table.
use lando_api.Common.{refl, ◌≡◌, some, String, [], arith, ◌∷◌}
use lando_api.Landing.Cancel.{get, get_job, cancel_job, can_cancel, put_job, Table, put}
use lando_api.Landing.Cancel.Rows.{put-get, put-Rows, Withdrawn, put-Answer, Answer}
use lando_api.Landing.Table.{store, Rows}
use lando_api.Landing.Samples.{waiting_job, example_job}
use lando_api.Landing.Job.{cancelled, transition_status}
use lando_api.Common.Exec.{returned}

abbrev table : Table
table = example_job ∷ waiting_job ∷ []

put-Answer_example :
    Answer "user@example.com" 6 "CANCELLED" table (put "user@example.com" 6 "CANCELLED" table)
put-Answer_example = put-Answer "user@example.com" 6 "CANCELLED" table

put-Rows_example :
    Rows
      (Withdrawn "user@example.com" 6 "CANCELLED" table)
      table
      (put "user@example.com" 6 "CANCELLED" table).1
put-Rows_example =
    put-Rows "user@example.com" 6 "CANCELLED" table (((λ e. omega arith), tt), (tt, tt))

put-get_example :
    (commit_id : String) × (get 6
        (example_job ∷ record waiting_job { status = some cancelled } ∷ [])
      ≡ returned (record { id = 6; status = "CANCELLED"; commit_id = commit_id }))
unfolding store put put_job can_cancel cancel_job transition_status get_job
put-get_example = put-get "user@example.com" 6 "CANCELLED" table {i = 6} refl

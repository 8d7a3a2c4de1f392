-- ===== src/Landing/Worker/Examples.antt =====
-- An iteration of the worker on a small table.
use lando_api.Common.{some, arith, [], ◌∷◌, true, ℕ}
use lando_api.Landing.Worker.{loop, Worker, Iteration, Setup}
use lando_api.Landing.Table.{Rows}
use lando_api.Landing.Samples.{counting, waiting_job, answers, example_job, example_repo}
use lando_api.Landing.Worker.Lifecycle.{loop-Rows, Turned}
use lando_api.Common.Exec.{returned}

abbrev setup : Setup ℕ
setup = record {
  repos = ("mozilla-central", example_repo) ∷ [];
  hgrepo = λ name. counting (returned tt);
  sleep_seconds = 5;
  default_grace_seconds = 120;
}

abbrev turn : Iteration ℕ
turn = record {
  tree_is_open = λ tree. true;
  services = answers true (returned tt);
  now = 500;
  elapsed_seconds = 9;
}

abbrev worker : Worker ℕ
worker = record {
  jobs = example_job ∷ waiting_job ∷ [];
  enabled_repos = "mozilla-central" ∷ [];
  last_job_finished = some true;
  sleeps = [];
  checkout = 0;
  notices = [];
  repo_updates = [];
}

loop-Rows_example :
    Rows (Turned (loop setup turn worker).0) worker.jobs (loop setup turn worker).1.jobs
loop-Rows_example = loop-Rows setup turn worker (((λ e. omega arith), tt), (tt, tt))

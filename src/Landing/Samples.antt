-- ===== src/Landing/Samples.antt =====
-- Small inputs for the examples: a job, its repository, a checkout that counts its commands, and the
-- services around them.
use lando_api.Common.{◌+◌, none, ◌∷◌, true, [], false, some, Bool, ℕ}
use lando_api.Common.Exec.{other, raised, returned, Outcome}
use lando_api.Landing.Repo.{Repo}
use lando_api.Landing.Job.{at_least_zero, in_progress, deferred, LandingJob}
use lando_api.Landing.Run.{Work}
use lando_api.Landing.Revision.{Revision}
use lando_api.Landing.Interface.{Services, HgRepo}

abbrev pub example_revision : Revision
example_revision = record {
  id = 1;
  revision_id = some 12;
  diff_id = some 34;
  patch_string = "# HG changeset patch";
  commit_message = some "Bug 1 - fix";
  approved_by = some (7 ∷ 8 ∷ []);
  peers_and_owners = none;
}

abbrev pub example_job : LandingJob
example_job = record {
  id = 5;
  created_at = 100;
  status = some in_progress;
  error = "";
  error_breakdown = none;
  requester_email = "user@example.com";
  repository_name = "mozilla-central";
  repository_url = "http://hg.test";
  landed_commit_id = "";
  attempts = 1;
  priority = at_least_zero 0;
  duration_seconds = 0;
  formatted_replacements = none;
  target_commit_hash = none;
  target_commit_hash_vcs = none;
  revisions = example_revision ∷ [];
  revision_to_diff_id = [];
}

abbrev pub example_repo : Repo
example_repo = record {
  tree = "mozilla-central";
  url = "http://hg.test";
  access_group = record {
    active_group = "active";
    expired_group = "expired";
    membership_group = "all";
    display_name = "Level 3";
  };
  push_bookmark = "";
  push_path = "ssh://hg.test";
  pull_path = "http://hg.test";
  short_name = "mozilla-central";
  approval_required = false;
  milestone_tracking_flag_template = "";
  autoformat_enabled = false;
  commit_flags = [];
  product_details_url = "";
  is_phabricator_repo = true;
  force_push = false;
  native_git_source = none;
}

-- A checkout that counts its commands, and whose push answers as it is told.
abbrev pub counting : Outcome (Unit {0}) → HgRepo ℕ
counting pushed = record {
  path = "/repos/mozilla-central";
  open_for_push = λ email n. (returned tt, n + 1);
  close = λ n. n + 1;
  update_repo = λ source target vcs n. (returned tt, n + 1);
  apply_patch = λ patch n. (returned tt, n + 1);
  run_hg = λ args n. (returned "abcdef", n + 1);
  format_stack = λ size bugs n. (returned none, n + 1);
  push = λ path bookmark force n. (pushed, n + 1);
  read_checkout_file = λ path n. (returned "130.0", n);
}

abbrev pub answers : (tree_is_open : Bool) → Outcome (Unit {0}) → Services ℕ
answers tree_is_open sent = record {
  is_open = λ tree. tree_is_open;
  send = λ notice. sent;
  enqueue_repo_update = λ identifier. returned tt;
  peers_and_owners = λ n. some (returned (8 ∷ []));
  update_bugs = λ name milestone template bugs. returned tt;
  parse_bugs = λ title. [];
  reject_paths = λ message. [];
  library_text = λ e. "error";
  read_reject = λ path n. raised (other "no file");
}

abbrev pub start : Work ℕ
start = record {
  session = record { job = example_job; row = example_job };
  checkout = 0;
  notices = [];
  repo_updates = [];
}

-- A second job, with a later id.
abbrev pub waiting_job : LandingJob
waiting_job = record example_job { id = 6; status = some deferred; created_at = 90 }

-- ===== src/Submission/Samples.antt =====
-- A request for one revision, with the services around it, for the examples.
use lando_api.Submission.Request.{TransplantRequest}
use lando_api.Submission.Assess.{Services, User}
use lando_api.Submission.Tables.{JobTables}
use lando_api.Common.{none, [], ◌∷◌, String, some, List}
use lando_api.Landing.Samples.{example_repo, example_job, example_revision}
use lando_api.Common.Int.{pos}
use lando_api.Common.Exec.{returned}
use lando_api.Landing.Job.{landed}
use lando_api.Assessment.Samples.{list_graph, diff, revision}

abbrev pub services : Services (List String)
services = record {
  release_managers = some (record { phid = "PHID-PROJ-1"; members = [] });
  data_policy_review_phid = some "PHID-PROJ-2";
  secure_project_phid = none;
  checkin_project_phid = some "PHID-PROJ-3";
  sec_approval_project_phid = "PHID-PROJ-4";
  search_revision = λ id. returned ((("PHID-DREV-1", []) ∷ []) ∷ []);
  extended_revision_data = λ phids. returned (record {
    revisions = revision ∷ [];
    diffs = diff ∷ [];
    repositories =
        ("PHID-REPO-1", record { short_name = "mozilla-central"; project_phids = [] }) ∷ [];
  });
  digraph = list_graph;
  stack_of = λ nodes edges. nodes;
  search = λ phids. returned tt;
  user_search = λ phids. returned [];
  project_search = λ phids. returned [];
  title_and_summary = λ r secure. returned (r.title, "");
  format_commit_message = λ title bug reviewers approvals summary url flags. returned title;
  revision_url = λ id. "https://phabricator.test/D12";
  raw_diff = λ id. returned "diff --git a/a.c b/a.c";
  parse = λ raw. record { filename = "a.c"; new_mode = none } ∷ [];
  bugzilla_accounts = λ phids. returned [];
  supported_repos = ("mozilla-central", example_repo) ∷ [];
  warning_checks = λ r d. returned [];
  digest = λ warnings. "token";
  now = 200;
  remove_project = λ r p. returned tt;
}

abbrev pub requester : User
requester = record { email = some "ann@example.com"; groups = "active" ∷ [] }

abbrev pub request : TransplantRequest
request = record {
  landing_path = record { revision_id = "D12"; diff_id = pos 34 } ∷ [];
  confirmation_token = none;
  flags = none;
}

-- The revision has landed before, with an older diff.
abbrev pub tables : JobTables
tables = record {
  revisions = record example_revision { diff_id = some 30 } ∷ [];
  jobs = record example_job { status = some landed; revisions = [] } ∷ [];
  associations =
      record { landing_job_id = 5; revision_id = 1; index = some 0; diff_id = some 30 } ∷ [];
  next_revision = 2;
  next_job = 6;
  sent = [];
}

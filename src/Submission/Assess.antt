-- ===== src/Submission/Assess.antt =====
-- The assessment of a request in landoapi/api/transplants.py, before a job is made for it.
use lando_api.Assessment.State.{
  PhabDiff, ParsedFile, PhabRevision, Digraph, StackState, LandingAssessment,
}
use lando_api.Common.{map, Bool, if◌then◌else◌, some, ◌∷◌, none, [], ℕ, Option, String, List}
use lando_api.Assessment.Checks.{RevisionWarning, run_landing_checks, Run}
use lando_api.Common.Exec.{problem, ◌>>>◌, other, raised, returned, Outcome}
use lando_api.Landing.Job.{LandingJob}
use lando_api.Submission.Stack.{
  build_stack_graph, build_stack_assessment_state, StackGraph, StackData,
}
use lando_api.Submission.Request.{
  choose_middle_revision_from_path, parse_transplant_request, TransplantRequest,
}
use lando_api.Common.Int.{ℤ}
use lando_api.Assessment.Path.{from_landing_path}
use lando_api.Assessment.Reviews.{Identity}
use lando_api.Common.Text.{is_truthy}
use lando_api.Landing.Repo.{Repo}

-- `get_release_managers` with the members of the project.
pub record ReleaseManagers : Type 0 where
  pub phid : String
  pub members : List String

-- The user who is logged in.
pub record User : Type 0 where
  pub email : Option String
  pub groups : List String

-- What a request asks of Phabricator, of Bugzilla and of the configuration.
pub record Services (G : Type 0) : Type 0 where
  pub release_managers : Option ReleaseManagers
  pub data_policy_review_phid : Option String
  pub secure_project_phid : Option String
  pub checkin_project_phid : Option String
  pub sec_approval_project_phid : String
  -- The graphs of the revisions that a search by id finds.
  pub search_revision : ℕ → Outcome (List StackGraph)
  pub extended_revision_data : List String → Outcome StackData
  pub digraph : Digraph G
  -- `RevisionStack`
  pub stack_of : (nodes : List String) → (edges : List (String × String)) → G
  pub search : List String → Outcome (Unit {0})
  pub user_search : List String → Outcome (List (String × Identity))
  pub project_search : List String → Outcome (List (String × Identity))
  pub title_and_summary : PhabRevision → (secure : Bool) → Outcome (String × String)
  pub format_commit_message :
      (title : String)
      → (bug : Option ℤ) → (reviewers approvals : List String) → (summary url : String)
      → (flags : List String) → Outcome String
  pub revision_url : ℕ → String
  pub raw_diff : ℕ → Outcome String
  pub parse : String → List ParsedFile
  pub bugzilla_accounts : List String → Outcome (List ℕ)
  pub supported_repos : List (String × Repo)
  pub warning_checks : PhabRevision → PhabDiff → Outcome (List RevisionWarning)
  pub digest : List RevisionWarning → String
  pub now : ℕ
  -- `admin_remove_phab_project.apply_async`
  pub remove_project : (revision_phid project_phid : String) → Outcome (Unit {0})

-- A request with its assessment.
pub record Assessed (G : Type 0) : Type 0 where
  pub landing : LandingAssessment
  pub stack_data : StackData
  pub run : Run G

-- `single` of landoapi/phabricator.py, with `none_when_empty`.
single : {A : Type 0} → List A → Outcome (Option A)
single [] = returned none
single (x ∷ []) = returned (some x)
single (x ∷ y ∷ rest) = raised (other "Phabricator responded with unexpected data")

required : {A : Type 0} → (message : String) → Option A → Outcome A
required message none = raised (other message)
required message (some a) = returned a

-- `if not phid: raise`
required_text : (message : String) → Option String → Outcome String
required_text message none = raised (other message)
required_text message (some s) = if is_truthy s then returned s else raised (other message)

module _ {G : Type 0} (services : Services G) where
  unfoldable pub find_stack_from_landing_path :
      List (ℕ × ℤ) → Outcome (List String × List (String × String))
  unfolding single
  find_stack_from_landing_path path = choose_middle_revision_from_path path >>> λ id.
      services.search_revision id >>> λ found. single found >>> λ graph. elim graph [
        | none ↦ raised (problem 404 "Stack Not Found")
        | some g ↦ returned (build_stack_graph g)
      ]

  new_run : G → Run G
  new_run stack = record {
    progress = record { landable_stack = stack; blocked = []; landing_repo = none };
    blockers = [];
    warnings = [];
  }

  run_on : StackState G → Outcome (Run G)
  unfolding new_run
  run_on state =
      let (r, run) =
        run_landing_checks services.digraph state services.warning_checks (new_run state.stack) in
      r >>> λ _. returned run

  -- What `dryrun` and `post` do alike, up to `run_landing_checks`.
  unfoldable pub assess :
      User → (jobs : List LandingJob) → (path : List (ℕ × ℤ)) → Outcome (Assessed G)
  unfolding find_stack_from_landing_path required required_text run_on
  assess user jobs path =
      required "Could not find `#release-managers` project on Phabricator."
        services.release_managers
      >>> λ managers.
          required_text "Could not find `#needs-data-classification` project on Phabricator."
            services.data_policy_review_phid
          >>> λ policy. find_stack_from_landing_path path >>> λ graph.
              services.extended_revision_data graph.0 >>> λ stack_data.
              from_landing_path stack_data.revisions stack_data.diffs path user.email user.groups
              >>> λ landing.
                  build_stack_assessment_state services.raw_diff services.parse services.search
                    services.supported_repos jobs stack_data
                    (services.stack_of (map (λ r. r.phid) stack_data.revisions) graph.1)
                    managers.phid policy (some landing)
                  >>> λ state. run_on state >>> λ run.
                      returned (record { landing = landing; stack_data = stack_data; run = run })

  -- The assessment, which `to_dict` prints.
  unfoldable pub dryrun : User → (jobs : List LandingJob) → TransplantRequest → Outcome (Run G)
  unfolding assess
  dryrun user jobs request = parse_transplant_request request >>> λ parsed.
      assess user jobs parsed.landing_path >>> λ assessed. returned assessed.run

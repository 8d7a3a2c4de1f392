-- ===== src/Submission/Stack.antt =====
-- landoapi/stacks.py and `build_stack_assessment_state` of landoapi/transplants.py: the data of a
use lando_api.Common.{
  if◌then◌else◌, none, some, string_eq, Option, [], not, ◌==◌, ◌++◌, keep, ◌∷◌, map, String, ℕ,
  List,
}
use lando_api.Assessment.State.{
  StackState, LandingAssessment, find_diff, or_key_error, look_up, ParsedFile, PhabDiff, PhabRepo,
  PhabRevision,
}
use lando_api.Landing.Repo.{Repo}
use lando_api.Common.Exec.{◌>>>◌, returned, Outcome}
use lando_api.Assessment.Reviews.{collate_reviewer_attachments, Reviewer}
use lando_api.Landing.Job.{LandingJob}
use lando_api.Common.Text.{is_truthy}

-- stack that an assessment reads.

-- `RevisionData`
pub record StackData : Type 0 where
  pub revisions : List PhabRevision
  pub diffs : List PhabDiff
  pub repositories : List (String × PhabRepo)

-- `fields.stackGraph` of a revision: the predecessors of each.
abbrev pub StackGraph : Type 0
StackGraph = List (String × List String)

edges_of : String → List String → List (String × String)
edges_of node predecessors = map (λ p. (node, p)) predecessors

-- The nodes, and the edges from a child to a parent.
unfoldable pub build_stack_graph : StackGraph → List String × List (String × String)
unfolding edges_of
build_stack_graph [] = ([], [])
build_stack_graph ((node, predecessors) ∷ graph) =
    let (nodes, edges) = build_stack_graph graph in
    (node ∷ nodes, edges_of node predecessors ++ edges)

unfoldable pub get_diffs_for_revision : PhabRevision → List PhabDiff → List PhabDiff
get_diffs_for_revision revision diffs = keep (λ d. revision.phid == d.revision_phid) diffs

-- The PHIDs, without the ones that come again.
unfoldable pub gather_involved_phids : PhabRevision → List PhabDiff → List String
gather_involved_phids revision diffs =
    revision.author_phid ∷ map (λ d. d.author_phid) diffs
    ++ map (λ r. r.reviewer_phid) revision.reviewers
    ++ map (λ r. r.reviewer_phid) revision.reviewers_extra

-- A set, in the order in which its elements come first.
unfoldable pub set_of : List String → List String
set_of [] = []
set_of (x ∷ xs) = x ∷ keep (λ y. not (y == x)) (set_of xs)

unfoldable pub involved_in : List PhabRevision → List PhabDiff → List String
involved_in [] diffs = []
involved_in (r ∷ revisions) diffs =
    gather_involved_phids r (get_diffs_for_revision r diffs) ++ involved_in revisions diffs

landable_repo :
    List (String × PhabRepo)
    → (supported_repos : List (String × Repo)) → String
    → List (String × Repo)
landable_repo repositories supported_repos phid = elim (look_up phid repositories) [
  | none ↦ []
  | some r ↦ elim (look_up r.short_name supported_repos) [
    | none ↦ []
    | some repo ↦ (phid, repo) ∷ []
  ]
]

landable_repos_of :
    List (String × PhabRepo)
    → (supported_repos : List (String × Repo)) → List String
    → List (String × Repo)
unfolding landable_repo
landable_repos_of repositories supported_repos [] = []
landable_repos_of repositories supported_repos (phid ∷ phids) =
    landable_repo repositories supported_repos phid
    ++ landable_repos_of repositories supported_repos phids

-- The repositories of the revisions that have one.
repo_phids : List PhabRevision → List String
repo_phids [] = []
repo_phids (r ∷ revisions) = elim r.repository_phid [
  | none ↦ repo_phids revisions
  | some phid ↦ if is_truthy phid then phid ∷ repo_phids revisions else repo_phids revisions
]

unfoldable pub get_landable_repos_for_revision_data :
    StackData → (supported_repos : List (String × Repo)) → List (String × Repo)
unfolding landable_repos_of repo_phids
get_landable_repos_for_revision_data stack_data supported_repos =
    landable_repos_of stack_data.repositories supported_repos
      (set_of (repo_phids stack_data.revisions))

-- `get_collated_reviewers`
unfoldable pub get_collated_reviewers : PhabRevision → Outcome (List Reviewer)
get_collated_reviewers revision =
    collate_reviewer_attachments revision.reviewers revision.reviewers_extra

collate_all : List PhabRevision → Outcome (Unit {0})
unfolding get_collated_reviewers
collate_all [] = returned tt
collate_all (r ∷ revisions) = get_collated_reviewers r >>> λ reviewers. collate_all revisions

-- `raw_diff` is the query for the text of a diff, and `parse` is `rs_parsepatch.get_diffs`.
module _ (raw_diff : ℕ → Outcome String) (parse : String → List ParsedFile) where
  latest_diffs : List PhabDiff → List PhabRevision → Outcome (List PhabDiff)
  latest_diffs diffs [] = returned []
  latest_diffs diffs (r ∷ revisions) =
      or_key_error r.diff_phid (find_diff r.diff_phid diffs) >>> λ diff.
      latest_diffs diffs revisions >>> λ rest. returned (diff ∷ rest)

  parse_all : List PhabDiff → Outcome (List (ℕ × List ParsedFile))
  parse_all [] = returned []
  parse_all (diff ∷ diffs) =
      raw_diff diff.id >>> λ raw. parse_all diffs >>> λ rest. returned ((diff.id, parse raw) ∷ rest)

  unfoldable pub get_parsed_diffs : StackData → Outcome (List (ℕ × List ParsedFile))
  unfolding latest_diffs parse_all
  get_parsed_diffs stack_data =
      latest_diffs stack_data.diffs stack_data.revisions >>> λ diffs. parse_all diffs

-- `search` stands for the searches of users and projects and of the PHIDs of projects, which may
-- raise; what the checks of the model read of them is a part of `warning_checks`.
unfoldable pub build_stack_assessment_state :
    {G : Type 0} (raw_diff : ℕ → Outcome String) (parse : String → List ParsedFile)
    → (search : List String → Outcome (Unit {0})) → (supported_repos : List (String × Repo))
    → (jobs : List LandingJob) → StackData
    → G
    → (relman_group_phid data_policy_review_phid : String) → Option LandingAssessment
    → Outcome (StackState G)
unfolding collate_all
build_stack_assessment_state raw_diff parse search supported_repos jobs stack_data stack relman
      policy l =
    get_parsed_diffs raw_diff parse stack_data >>> λ parsed.
    collate_all stack_data.revisions >>> λ _.
    search (set_of (involved_in stack_data.revisions stack_data.diffs)) >>> λ _. returned (record {
      revisions = stack_data.revisions;
      diffs = stack_data.diffs;
      repositories = stack_data.repositories;
      stack = stack;
      parsed_diffs = parsed;
      landable_repos = get_landable_repos_for_revision_data stack_data supported_repos;
      supported_repos = supported_repos;
      relman_group_phid = relman;
      data_policy_review_phid = policy;
      jobs = jobs;
      landing_assessment = l;
    })

-- ===== src/Assessment/State.antt =====
-- What an assessment reads: the data of Phabricator for a stack, the request to land, and the part of
-- the state that the checks change (`StackAssessmentState` of landoapi/transplants.py).
use lando_api.Common.{
  string_eq, ◌==◌, find, ◌≡◌, Bool, if◌then◌else◌, List, String, Option, ℕ, none, some, [], ◌∷◌,
  false,
}
use lando_api.Assessment.Reviews.{ExtraRow, PhabricatorRevisionStatus, ReviewerRow}
use lando_api.Common.Exec.{key_error, raised, returned, Outcome}
use lando_api.Landing.Repo.{Repo}
use lando_api.Landing.Job.{LandingJob}
use lando_api.Common.Int.{ℤ}

-- What the program uses of the graph of a stack, a subclass of `networkx.DiGraph`.
pub record Digraph (G : Type 0) : Type 0 where
  pub has_node : String → G → Bool
  pub predecessors : String → G → List String
  pub remove_node : String → G → G
  pub is_simple_path : G → List String → Bool
  -- `landable_paths` of landoapi/stacks.py
  pub landable_paths : G → List (List String)

-- Removing a node removes that node, and no other.
pub record IsDigraph {G : Type 0} (D : Digraph G) : Type 0 where
  pub removed :
      (a b : String) (g : G)
      → D.has_node a (D.remove_node b g) ≡ (if a == b then false else D.has_node a g)

-- A file of a parsed diff: `modes.get("new")`.
pub record ParsedFile : Type 0 where
  pub filename : String
  pub new_mode : Option ℕ

-- A diff with the name and e-mail of the author of each of its commits.
pub record PhabDiff : Type 0 where
  pub id : ℕ
  pub phid : String
  pub revision_phid : String
  pub author_phid : String
  pub commit_authors : List (Option String × Option String)

pub record PhabRevision : Type 0 where
  pub id : ℕ
  pub phid : String
  pub title : String
  pub summary : String
  pub author_phid : String
  pub bugzilla_bug_id : Option String
  pub status : PhabricatorRevisionStatus
  pub repository_phid : Option String
  pub diff_phid : String
  pub project_phids : List String
  pub reviewers : List ReviewerRow
  pub reviewers_extra : List ExtraRow

pub record PhabRepo : Type 0 where
  pub short_name : String
  pub project_phids : List String

-- `LandingAssessmentState`: the user, and the path with the diffs that were asked for.
pub record LandingAssessment : Type 0 where
  pub email : Option String
  pub groups : List String
  pub landing_path_by_phid : List (String × ℤ)
  pub to_land : List (PhabRevision × PhabDiff)

pub record StackState (G : Type 0) : Type 0 where
  pub revisions : List PhabRevision
  pub diffs : List PhabDiff
  pub repositories : List (String × PhabRepo)
  pub stack : G
  pub parsed_diffs : List (ℕ × List ParsedFile)
  pub landable_repos : List (String × Repo)
  pub supported_repos : List (String × Repo)
  pub relman_group_phid : String
  pub data_policy_review_phid : String
  pub jobs : List LandingJob
  pub landing_assessment : Option LandingAssessment

-- What the checks change: `landable_stack`, the `blocked` reasons of the nodes, and `landing_repo`.
pub record Progress (G : Type 0) : Type 0 where
  pub landable_stack : G
  pub blocked : List (String × String)
  pub landing_repo : Option Repo

-- `d[key]` and `d.get(key)`
unfoldable pub look_up : {A : Type 0} → String → List (String × A) → Option A
look_up key [] = none
look_up key ((k, v) ∷ rest) = let other = look_up key rest in if k == key then some v else other

unfoldable pub look_up_if_set : {A : Type 0} → Option String → List (String × A) → Option A
look_up_if_set none entries = none
look_up_if_set (some key) entries = look_up key entries

unfoldable pub find_revision : String → List PhabRevision → Option PhabRevision
find_revision phid revisions = find (λ r. r.phid == phid) revisions

unfoldable pub find_diff : String → List PhabDiff → Option PhabDiff
find_diff phid diffs = find (λ d. d.phid == phid) diffs

-- A missing key raises.
abbrev pub or_key_error : {A : Type 0} → String → Option A → Outcome A
or_key_error key none = raised (key_error key)
or_key_error key (some a) = returned a

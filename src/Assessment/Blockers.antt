-- ===== src/Assessment/Blockers.antt =====
-- The checks of landoapi/transplants.py that block a landing: each gives the reason, or None.
use lando_api.Common.{
  map, is_some, find, elem, option_eq, string_eq, nat_eq, not, ◌&&◌, is_empty, ◌==◌, any, ltb,
  length, keep, Bool, if◌then◌else◌, String, List, Option, ℕ, none, some, [], ◌∷◌, false,
}
use lando_api.Assessment.State.{
  find_revision, find_diff, or_key_error, look_up, look_up_if_set, PhabRevision, LandingAssessment,
  StackState, ParsedFile, Digraph, PhabDiff,
}
use lando_api.Common.Text.{decimal, join, text, is_truthy}
use lando_api.Common.Exec.{◌>>>◌, key_error, raised, returned, Outcome}
use lando_api.Assessment.Reviews.{
  accepts, collate_reviewer_attachments, is_closed, is_changes_planned, Reviewer,
}
use lando_api.Landing.Repo.{Repo}
use lando_api.Common.Int.{int_eq, pos}

abbrev pub Reason : Type 0
Reason = Option String

-- A name or an e-mail that is set and not empty.
abbrev pub is_set : Option String → Bool
is_set none = false
is_set (some s) = is_truthy s

count_author : Option String × Option String → List (Option String × Option String) → ℕ
count_author a authors = length (keep (λ b. a.0 == b.0 && a.1 == b.1) authors)

-- `Counter(…).most_common(1)`: the first of the most frequent.
most_common :
    (all : List (Option String × Option String))
    → Option String × Option String
    → List (Option String × Option String)
    → Option String × Option String
unfolding count_author
most_common all best [] = best
most_common all best (a ∷ rest) =
    most_common all (if ltb (count_author best all) (count_author a all) then a else best) rest

-- `select_diff_author` of landoapi/revisions.py
pub select_diff_author : PhabDiff → Option String × Option String
unfolding most_common
select_diff_author diff = elim diff.commit_authors [
  | [] ↦ (none, none)
  | a ∷ rest ↦ most_common (a ∷ rest) a rest
]

unfoldable pub blocker_diff_author_is_known : PhabDiff → Reason
unfolding select_diff_author
blocker_diff_author_is_known diff =
    let (name, email) = select_diff_author diff in
    if is_set name && is_set email
    then none
    else some (
        text (
          "Diff does not have proper author information in Phabricator. "
          ∷ "See the Lando FAQ for help with this error." ∷ []))

-- `PreventSymlinksCheck` and `TryTaskConfigCheck` of landoapi/hgexports.py
unfoldable pub is_symlink : ParsedFile → Bool
is_symlink file = file.new_mode == some 40960

unfoldable pub symlink_reason : List ParsedFile → Reason
unfolding is_symlink
symlink_reason files =
    let links = keep is_symlink files in
    if is_empty links
    then none
    else some (
        text (
          "Revision introduces symlinks in the files "
          ∷ join "," (map (λ f. text ("`" ∷ f.filename ∷ "`" ∷ [])) links)
          ∷ "."
          ∷ []))

unfoldable pub try_task_config_reason : List ParsedFile → Reason
try_task_config_reason files =
    if any (λ f. f.filename == "try_task_config.json") files
    then some "Revision introduces the `try_task_config.json` file."
    else none

-- `dict(entries).get(key)`: a later entry of a key replaces an earlier one.
dict_get : {A : Type 0} → String → List (String × A) → Option A
dict_get key [] = none
dict_get key ((k, v) ∷ rest) = elim (dict_get key rest) [
  | none ↦ if k == key then some v else none
  | some w ↦ some w
]

relman_message : String
relman_message = text (
    "The release-managers group did not accept the stack: "
    ∷ "you need to wait for a group approval from release-managers, " ∷ "or request a new review."
    ∷ [])

approved_by_relman : (relman : Option Reviewer) → Outcome Reason
unfolding relman_message
approved_by_relman none = returned (some relman_message)
approved_by_relman (some r) = accepts r >>> λ b. returned (if b then none else some relman_message)

module _ {G : Type 0} (D : Digraph G) (s : StackState G) where
  parsed_diff : ℕ → Outcome (List ParsedFile)
  parsed_diff id = elim (find (λ p. p.0 == id) s.parsed_diffs) [
    | none ↦ raised (key_error (decimal id))
    | some p ↦ returned p.1
  ]

  unfoldable pub blocker_prevent_symlinks : PhabDiff → Outcome Reason
  unfolding parsed_diff symlink_reason
  blocker_prevent_symlinks diff = parsed_diff diff.id >>> λ files. returned (symlink_reason files)

  unfoldable pub blocker_try_task_config : PhabDiff → Outcome Reason
  unfolding parsed_diff try_task_config_reason
  blocker_try_task_config diff =
      parsed_diff diff.id >>> λ files. returned (try_task_config_reason files)

  scm_level_of : LandingAssessment → Option Repo → Reason
  scm_level_of landing none = some "Landing repository is missing for this landing."
  scm_level_of landing (some repo) =
      if elem repo.access_group.active_group landing.groups
      then none
      else if elem repo.access_group.membership_group landing.groups
      then some (text ("Your " ∷ repo.access_group.display_name ∷ " has expired." ∷ []))
      else some (
          text (
            "You have insufficient permissions to land. " ∷ repo.access_group.display_name
            ∷ " is required. See the FAQ for help." ∷ []))

  unfoldable pub blocker_user_scm_level : PhabRevision → Reason
  unfolding scm_level_of
  blocker_user_scm_level revision = elim s.landing_assessment [
    | none ↦ none
    | some landing ↦ scm_level_of landing (look_up_if_set revision.repository_phid s.landable_repos)
  ]

  unfoldable pub blocker_unsupported_repo : PhabRevision → Reason
  blocker_unsupported_repo revision =
      if not (is_set revision.repository_phid)
      then some
          "Revision's repository unset. Specify a target using\"Edit revision\" in Phabricator"
      else if not (is_some (look_up_if_set revision.repository_phid s.landable_repos))
      then some "Repository is not supported by Lando."
      else none

  -- The parents that are not closed.
  open_parents : List String → Outcome (List PhabRevision)
  open_parents [] = returned []
  open_parents (p ∷ parents) = or_key_error p (find_revision p s.revisions) >>> λ parent.
      open_parents parents >>> λ others.
      returned (if is_closed parent.status then others else parent ∷ others)

  open_parent_reason : (landable : G) → PhabRevision → List PhabRevision → Reason
  open_parent_reason landable revision [] = none
  open_parent_reason landable revision (parent ∷ []) =
      if not (D.has_node parent.phid landable)
      then some (text ("Depends on D" ∷ decimal parent.id ∷ " which is open and blocked." ∷ []))
      else if not (revision.repository_phid == parent.repository_phid)
      then some (
          text (
            "Depends on D"
            ∷ decimal parent.id
            ∷ " which is open and has a different repository."
            ∷ []))
      else none
  open_parent_reason landable revision (parent ∷ other ∷ parents) =
      some "Depends on multiple open parents."

  unfoldable pub blocker_open_parents : (landable : G) → PhabRevision → Outcome Reason
  unfolding open_parents open_parent_reason
  blocker_open_parents landable revision =
      open_parents (D.predecessors revision.phid s.stack) >>> λ parents.
      returned (open_parent_reason landable revision parents)

  unfoldable pub blocker_closed_revisions : PhabRevision → Reason
  blocker_closed_revisions revision =
      if is_closed revision.status then some "Revision is closed." else none

  latest_reason : PhabRevision → LandingAssessment → PhabDiff → Reason
  unfolding dict_get
  latest_reason revision landing latest =
      if some (pos latest.id) == dict_get revision.phid landing.landing_path_by_phid
      then none
      else some "A requested diff is not the latest."

  unfoldable pub blocker_latest_diffs : PhabRevision → Outcome Reason
  unfolding latest_reason
  blocker_latest_diffs revision = elim s.landing_assessment [
    | none ↦ returned none
    | some landing ↦
        or_key_error revision.diff_phid (find_diff revision.diff_phid s.diffs) >>> λ latest.
        returned (latest_reason revision landing latest)
  ]

  unfoldable pub blocker_author_planned_changes : PhabRevision → Reason
  blocker_author_planned_changes revision =
      if is_changes_planned revision.status
      then some "The author has indicated they are planning changes to this revision."
      else none

  -- `get_repo_for_revision`
  repo_for_revision : PhabRevision → Option Repo
  repo_for_revision revision = elim (look_up_if_set revision.repository_phid s.repositories) [
    | none ↦ none
    | some repo ↦ look_up repo.short_name s.supported_repos
  ]

  relman_reason : PhabRevision → Outcome Reason
  unfolding approved_by_relman
  relman_reason revision =
      collate_reviewer_attachments revision.reviewers revision.reviewers_extra >>> λ rs.
      approved_by_relman (find (λ r. r.phid == s.relman_group_phid) rs)

  uplift_reason : PhabRevision → Option Repo → Outcome Reason
  unfolding relman_reason
  uplift_reason revision none = returned none
  uplift_reason revision (some repo) =
      if repo.approval_required then relman_reason revision else returned none

  unfoldable pub blocker_uplift_approval : PhabRevision → Outcome Reason
  unfolding uplift_reason repo_for_revision
  blocker_uplift_approval revision = uplift_reason revision (repo_for_revision revision)

  unfoldable pub blocker_revision_data_classification : PhabRevision → Reason
  blocker_revision_data_classification revision =
      if elem s.data_policy_review_phid revision.project_phids
      then some (
          text (
            "Revision makes changes to data collection and "
            ∷ "should have its data classification assessed before landing." ∷ []))
      else none

  unfoldable pub blocker_open_ancestor : (landable : G) → PhabRevision → Reason
  blocker_open_ancestor landable revision =
      if D.has_node revision.phid landable
      then none
      else some "Has an open ancestor revision that is blocked."

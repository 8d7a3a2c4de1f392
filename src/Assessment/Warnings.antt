-- ===== src/Assessment/Warnings.antt =====
-- The warnings of landoapi/transplants.py about the reviews and the status of a revision: each gives
-- the details, or None.
pub mod Reviewed
mod Examples
use lando_api.Common.{
  elem, map, not, ◌&&◌, if◌then◌else◌, List, String, Option, none, some, [], ◌∷◌, string_eq,
}
use lando_api.Common.Text.{join, text}
use lando_api.Common.Exec.{◌>>>◌, key_error, raised, returned, Outcome}
use lando_api.Assessment.Reviews.{
  calculate_review_extra_state, ReviewState, Reviewer, ReviewerStatus, ExtraRow, Identity,
  reviewer_identity, has_accepted, PhabricatorRevisionStatus, accepted, output_name,
}
use lando_api.Assessment.State.{PhabRevision}

abbrev pub status_or_error : Option ReviewerStatus → Outcome ReviewerStatus
status_or_error none = raised (key_error "status")
status_or_error (some status) = returned status

abbrev pub extra_or_error : Option ExtraRow → Outcome ExtraRow
extra_or_error none = raised (key_error "diffPHID")
extra_or_error (some row) = returned row

-- The status of a reviewer, with what it means for a diff. A part that is not there raises.
abbrev pub review_of :
    (diff_phid : String)
    → Option ReviewerStatus
    → Option ExtraRow
    → Outcome (ReviewerStatus × ReviewState)
review_of diff_phid status extra = status_or_error status >>> λ known.
    extra_or_error extra >>> λ row.
    returned (known, calculate_review_extra_state diff_phid known row.diff_phid)

pub extra_state : (diff_phid : String) → Reviewer → Outcome (ReviewerStatus × ReviewState)
extra_state diff_phid r = review_of diff_phid r.status r.extra

pub blocking_phids : (diff_phid : String) → List Reviewer → Outcome (List String)
blocking_phids diff_phid [] = returned []
blocking_phids diff_phid (r ∷ rs) = extra_state diff_phid r >>> λ state.
    blocking_phids diff_phid rs >>> λ phids.
    returned (if state.1.blocking_landing then r.phid ∷ phids else phids)

all_but_last : String → List String → List String
all_but_last name [] = []
all_but_last name (other ∷ names) = name ∷ all_but_last other names

last_name : String → List String → String
last_name name [] = name
last_name name (other ∷ names) = last_name other names

pub blocking_text : (blocking_reviewers : List String) → Option String
unfolding all_but_last last_name
blocking_text [] = none
blocking_text (name ∷ []) = some (
    text (
      "The review from " ∷ name ∷ " is in a state which is " ∷ "intended to prevent landings."
      ∷ []))
blocking_text (name ∷ other ∷ names) = some (
    text (
      "Reviews from "
      ∷ join ", " (all_but_last name (other ∷ names))
      ∷ ", and "
      ∷ last_name name (other ∷ names)
      ∷ " are in a state which is intended to prevent landings."
      ∷ []))

pub warning_blocking_reviews :
    (diff_phid : String)
    → List Reviewer
    → (users projects : List (String × Identity)) → Outcome (Option String)
warning_blocking_reviews diff_phid reviewers users projects =
    blocking_phids diff_phid reviewers >>> λ phids. returned (
      blocking_text
        (map (λ p. text ("@" ∷ (reviewer_identity p users projects).identifier ∷ [])) phids))

pub warning_not_accepted : PhabRevision → Option String
warning_not_accepted revision = elim revision.status [
  | accepted ↦ none
  | _ ↦ some (output_name revision.status)
]

pub warning_reviews_not_current : (diff_phid : String) → List Reviewer → Outcome (Option String)
warning_reviews_not_current diff_phid [] =
    returned (some "Has no accepted review on the current diff.")
warning_reviews_not_current diff_phid (r ∷ rs) = extra_state diff_phid r >>> λ state.
    let others = warning_reviews_not_current diff_phid rs in
    if has_accepted state.0 && not state.1.for_other_diff then returned none else others

pub warning_revision_secure : PhabRevision → (secure_project_phid : Option String) → Option String
warning_revision_secure revision none = none
warning_revision_secure revision (some phid) =
    if elem phid revision.project_phids
    then some (
        text (
          "This revision is tied to a secure bug. Ensure that you are following the "
          ∷ "Security Bug Approval Process guidelines before landing this changeset." ∷ []))
    else none

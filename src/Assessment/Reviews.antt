-- ===== src/Assessment/Reviews.antt =====
-- landoapi/reviews.py, and the two statuses of landoapi/phabricator.py.
use lando_api.Common.{
  option_eq, ◌||◌, length, ◌&&◌, min, string_eq, ltb, ◌==◌, elem, if◌then◌else◌, not, find, keep,
  Bool, List, String, Option, none, some, [], ◌∷◌, true, false,
}
use lando_api.Common.Exec.{◌>>>◌, key_error, returned, other, raised, Outcome}

pub data PhabricatorRevisionStatus : Type 0 where
  abandoned accepted changes_planned published needs_review needs_revision draft unexpected_status :
      PhabricatorRevisionStatus

-- `closed`
abbrev pub is_closed : PhabricatorRevisionStatus → Bool
is_closed abandoned = true
is_closed published = true
is_closed _ = false

abbrev pub is_changes_planned : PhabricatorRevisionStatus → Bool
is_changes_planned changes_planned = true
is_changes_planned _ = false

abbrev pub output_name : PhabricatorRevisionStatus → String
output_name abandoned = "Abandoned"
output_name accepted = "Accepted"
output_name changes_planned = "Changes Planned"
output_name published = "Closed"
output_name needs_review = "Needs Review"
output_name needs_revision = "Needs Revision"
output_name draft = "Draft"
output_name unexpected_status = ""

pub data ReviewerStatus : Type 0 where
  reviewer_added reviewer_accepted reviewer_blocking reviewer_rejected reviewer_resigned
        reviewer_unexpected :
      ReviewerStatus

-- `diff_specific`
abbrev pub is_diff_specific : ReviewerStatus → Bool
is_diff_specific reviewer_accepted = true
is_diff_specific reviewer_rejected = true
is_diff_specific _ = false

abbrev pub has_accepted : ReviewerStatus → Bool
has_accepted reviewer_accepted = true
has_accepted _ = false

abbrev pub has_rejected : ReviewerStatus → Bool
has_rejected reviewer_rejected = true
has_rejected _ = false

abbrev pub is_blocking : ReviewerStatus → Bool
is_blocking reviewer_blocking = true
is_blocking _ = false

pub record ReviewState : Type 0 where
  pub for_other_diff : Bool
  pub blocking_landing : Bool

unfoldable pub calculate_review_extra_state : String → ReviewerStatus → Option String → ReviewState
calculate_review_extra_state for_diff_phid status reviewer_diff_phid =
    let other_diff = not (some for_diff_phid == reviewer_diff_phid) && is_diff_specific status in
    record {
      for_other_diff = other_diff;
      blocking_landing = is_blocking status || has_rejected status && not other_diff;
    }

-- A row of the attachment `reviewers`, and one of `reviewers-extra`.
pub record ReviewerRow : Type 0 where
  pub reviewer_phid : String
  pub status : ReviewerStatus

pub record ExtraRow : Type 0 where
  pub reviewer_phid : String
  pub diff_phid : Option String

-- What is collated of a reviewer: each part stands only if the attachment has it.
pub record Reviewer : Type 0 where
  pub phid : String
  pub status : Option ReviewerStatus
  pub extra : Option ExtraRow

-- `d[k] = v` on a dict in insertion order, for values that hold their key.
pub set_reviewer : Reviewer → List Reviewer → List Reviewer
set_reviewer r [] = r ∷ []
set_reviewer r (x ∷ xs) =
    let rest = set_reviewer r xs in if x.phid == r.phid then r ∷ xs else x ∷ rest

find_reviewer : String → List Reviewer → Option Reviewer
find_reviewer phid rs = find (λ r. r.phid == phid) rs

add_rows : List ReviewerRow → List Reviewer → List Reviewer
add_rows [] out = out
add_rows (r ∷ rows) out =
    add_rows rows
      (set_reviewer (record { phid = r.reviewer_phid; status = some r.status; extra = none }) out)

-- `data.update(phids.get(phid, {}))`: what stood there before wins.
with_extra : ExtraRow → Option Reviewer → Reviewer
with_extra row none = record { phid = row.reviewer_phid; status = none; extra = some row }
with_extra row (some r) = record {
  phid = row.reviewer_phid;
  status = r.status;
  extra = elim r.extra [ none ↦ some row | some before ↦ some before ];
}

add_extra : List ExtraRow → List Reviewer → List Reviewer
unfolding with_extra find_reviewer
add_extra [] out = out
add_extra (r ∷ rows) out =
    add_extra rows (set_reviewer (with_extra r (find_reviewer r.reviewer_phid out)) out)

unfoldable pub collate_reviewer_attachments :
    List ReviewerRow → List ExtraRow → Outcome (List Reviewer)
unfolding add_rows add_extra
collate_reviewer_attachments reviewers extra =
    let phids = add_extra extra (add_rows reviewers []) in
    if ltb (min (length reviewers) (length extra)) (length phids)
    then raised (other "Phabricator responded with unexpected data")
    else returned phids

-- A user or a project, by its PHID.
pub record Identity : Type 0 where
  pub identifier : String
  pub full_name : String

pub reviewer_identity : String → List (String × Identity) → List (String × Identity) → Identity
reviewer_identity phid users projects = elim (find (λ p. p.0 == phid) users) [
  | some p ↦ p.1
  | none ↦ elim (find (λ p. p.0 == phid) projects) [
    | some p ↦ record { identifier = p.1.identifier; full_name = p.1.identifier }
    | none ↦ record { identifier = "<unknown>"; full_name = "Unknown User/Project" }
  ]
]

-- `r["status"] == ReviewerStatus.ACCEPTED`, which raises if there is no status.
pub accepts : Reviewer → Outcome Bool
accepts r = elim r.status [
  | none ↦ raised (key_error "status")
  | some status ↦ returned (has_accepted status)
]

-- The identifiers of the reviewers with a wanted PHID who accepted.
accepting :
    (wanted : String → Bool)
    → (users projects : List (String × Identity)) → List Reviewer
    → Outcome (List String)
accepting wanted users projects [] = returned []
accepting wanted users projects (r ∷ rs) =
    (if wanted r.phid then accepts r else returned false) >>> λ b.
    accepting wanted users projects rs >>> λ names.
    returned (if b then (reviewer_identity r.phid users projects).identifier ∷ names else names)

pub reviewers_for_commit_message :
    List Reviewer
    → (users projects : List (String × Identity)) → (sec_approval_phid : String)
    → Outcome (List String)
unfolding accepting
reviewers_for_commit_message reviewers users projects sec_approval_phid =
    accepting (λ phid. not (phid == sec_approval_phid)) users projects reviewers

-- The reviewers and the approvals.
pub approvals_for_commit_message :
    List Reviewer
    → (users projects : List (String × Identity)) → (relman_phids accepted_reviewers : List String)
    → Outcome (List String × List String)
unfolding accepting
approvals_for_commit_message reviewers users projects relman_phids accepted_reviewers =
    accepting (λ phid. elem phid relman_phids) users projects reviewers >>> λ approvals. returned (
      keep (λ r. not (elem r approvals) && not (r == "release-managers")) accepted_reviewers,
      approvals,
    )

-- ===== src/Submission/Prepare.antt =====
-- The building of the patches in `post` of landoapi/api/transplants.py.
pub mod Kept
pub mod Saved
pub mod Built
use lando_api.Landing.Job.{status_eq}
use lando_api.Common.{
  nat_eq, suc, option_eq, [], string_eq, ◌++◌, keep, if◌then◌else◌, some, ◌∷◌, elem, none, String,
  map, Bool, Option, List, ℕ,
}
use lando_api.Landing.Repo.{Repo}
use lando_api.Submission.Assess.{Services}
use lando_api.Assessment.State.{PhabDiff, PhabRevision}
use lando_api.Submission.Tables.{update_revision, get_from_revision_id, JobTables}
use lando_api.Assessment.Reviews.{
  approvals_for_commit_message, has_accepted, Identity, reviewers_for_commit_message, Reviewer,
}
use lando_api.Common.Exec.{
  value_error, modify, lift, ◌>>>◌, attribute_error, raised, returned, ◌>>◌, ◌>>=◌, pure, Exec,
  Outcome,
}
use lando_api.Landing.Revision.{Revision}
use lando_api.Submission.Stack.{get_collated_reviewers}
use lando_api.Common.Int.{int_of, ℤ}
use lando_api.Common.Text.{decimal, is_truthy}
use lando_api.Assessment.Blockers.{select_diff_author}
use lando_api.Patch.Build.{build_patch_for_revision}

-- What is known of a request when its patches are built.
pub record Plan : Type 0 where
  pub repo : Repo
  pub flags : List String
  pub users : List (String × Identity)
  pub projects : List (String × Identity)
  pub relman_phids : List String

new_revision : (id revision_id diff_id : ℕ) → Revision
new_revision id revision_id diff_id = record {
  id = id;
  revision_id = some revision_id;
  diff_id = some diff_id;
  patch_string = "";
  commit_message = none;
  approved_by = none;
  peers_and_owners = none;
}

-- The row of the revision, which is made if there is none, with the diff.
pub save_revision : (revision_id diff_id : ℕ) → Exec JobTables ℕ
unfolding new_revision
save_revision revision_id diff_id t = elim (get_from_revision_id revision_id t.revisions) [
  | none ↦ (
    returned t.next_revision,
    record t {
      revisions = t.revisions ++ new_revision t.next_revision revision_id diff_id ∷ [];
      next_revision = suc t.next_revision;
    },
  )
  | some row ↦ (
    returned row.id,
    record t {
      revisions = update_revision row.id (λ r. record r { diff_id = some diff_id }) t.revisions;
    },
  )
]

-- `.strip()` of an author's name or e-mail that is None raises.
author_of : Option String → Outcome String
author_of none = raised (attribute_error "strip")
author_of (some s) = returned s

-- `Revision.set_patch`, and the commit after it.
pub set_patch :
    (key : ℕ)
    → (raw_diff : String) → (author : Option String × Option String) → (message : String)
    → (timestamp : ℕ) → Exec JobTables Unit
unfolding author_of
set_patch key raw_diff author message timestamp = do
  name ← lift (author_of author.0)
  email ← lift (author_of author.1)
  modify (λ t. record t {
    revisions =
        update_revision key
          (λ r. record r {
            patch_string = build_patch_for_revision raw_diff name email message (decimal timestamp);
            commit_message = some message;
          })
          t.revisions;
  })

-- `get_bugzilla_bug`
bug_of : PhabRevision → Outcome (Option ℤ)
bug_of revision = elim revision.bugzilla_bug_id [
  | none ↦ returned none
  | some s ↦
      if is_truthy s
      then elim (int_of s) [
        | none ↦ raised (value_error "invalid literal for int() with base 10")
        | some n ↦ returned (some n)
      ]
      else returned none
]

-- `phid in projectPHIDs`
unfoldable pub tagged : Option String → PhabRevision → Bool
tagged phid revision = elem phid (map some revision.project_phids)

module _ {G : Type 0} (services : Services G) where
  -- `get_approved_by_ids`
  approving_ids : PhabRevision → Outcome (List ℕ)
  approving_ids revision =
      services.bugzilla_accounts
        (map (λ r. r.reviewer_phid) (keep (λ r. has_accepted r.status) revision.reviewers))

  reviewers_and_approvals : Plan → List Reviewer → Outcome (List String × List String)
  reviewers_and_approvals plan reviewers =
      reviewers_for_commit_message reviewers plan.users plan.projects
        services.sec_approval_project_phid
      >>> λ accepted.
          if plan.repo.approval_required
          then approvals_for_commit_message reviewers plan.users plan.projects plan.relman_phids
              accepted
          else returned (accepted, [])

  commit_message_of : Plan → PhabRevision → Outcome String
  unfolding reviewers_and_approvals tagged bug_of
  commit_message_of plan revision = get_collated_reviewers revision >>> λ reviewers.
      reviewers_and_approvals plan reviewers >>> λ names.
      services.title_and_summary revision (tagged services.secure_project_phid revision)
      >>> λ description. bug_of revision >>> λ bug.
          services.format_commit_message description.0 bug names.0 names.1 description.1
            (services.revision_url revision.id) plan.flags

  -- The loop's body: the key of the row, with the ids of those who approved.
  pub prepare_revision : Plan → PhabRevision × PhabDiff → Exec JobTables (ℕ × List ℕ)
  unfolding approving_ids commit_message_of
  prepare_revision plan (revision, diff) = do
    message ← lift (commit_message_of plan revision)
    key ← save_revision revision.id diff.id
    approved ← lift (approving_ids revision)
    raw ← lift (services.raw_diff diff.id)
    set_patch key raw (select_diff_author diff) message services.now
    pure (key, approved)

  pub prepare_revisions : Plan → List (PhabRevision × PhabDiff) → Exec JobTables (List (ℕ × List ℕ))
  prepare_revisions plan [] = pure []
  prepare_revisions plan (p ∷ to_land) = do
    first ← prepare_revision plan p
    rest ← prepare_revisions plan to_land
    pure (first ∷ rest)

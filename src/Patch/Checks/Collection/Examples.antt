-- ===== src/Patch/Checks/Collection/Examples.antt =====
-- A push of two patches, of which the second asks to ignore bad messages.
use lando_api.Patch.Checks.Collection.{
  lower_starts_with, has_ignore_phrase, first_line_of, list_issue, line_issue, note_message,
  collection_result, next_patch, pass_patch, run_patches, new_collection_check, commit_messages,
  Rules, run_patch_collection_checks,
}
use lando_api.Patch.Checks.{
  new_check, next_diff, pass_diffs, result, issues_of, wpt_sync, prevent_symlinks,
  prevent_submodules, run_diff_checks,
}
use lando_api.Patch.Checks.Collection.Messages.{
  joined_issues, patch_helper, run_patch_collection_checks-messages, issues_in, ignores,
  diff_issues, PatchText,
}
use lando_api.Common.{refl, any, if◌then◌else◌, ◌++◌, map, ◌≡◌, inr, [], some, ◌∷◌, none, false}
use lando_api.Common.Search.{starts_with, contains}
use lando_api.Common.Exec.{returned}
use lando_api.Patch.Checks.Reasons.{run_diff_checks-found, found_in}
use lando_api.Common.Text.{join, splitlines}

abbrev rules : Rules
rules = record {
  is_backout = λ s. false;
  parse_backouts = λ s. none;
  has_invalid_review_flag = λ s. false;
  has_acceptable_format = λ s. contains "Bug" s;
  parse_bugs = λ s. [];
  search_bugs = λ bugs. inr [];
  get_status_code_for_bug = λ bug. inr 404;
  pop = λ bug bugs. bug;
  get_diffs = λ s. record { filename = ".gitmodules"; new_mode = none } ∷ [];
}

abbrev bad_patch : PatchText
bad_patch = record {
  author = "Ann";
  email = "ann@example.com";
  description = "WIP: work";
  diff = "diff --git a/.gitmodules b/.gitmodules";
}

bad_message_test :
    run_patch_collection_checks rules
      (commit_messages ∷ [])
      (prevent_submodules ∷ [])
      (patch_helper bad_patch ∷ [])
    ≡ returned (
        "Revision introduces a Git submodule into the repository."
        ∷ "Revision seems to be marked as WIP." ∷ [])
unfolding run_patch_collection_checks new_collection_check run_patches pass_patch next_patch
    collection_result note_message line_issue list_issue first_line_of has_ignore_phrase
    lower_starts_with run_diff_checks pass_diffs next_diff result new_check issues_of contains
    starts_with splitlines join
bad_message_test = refl

run_diff_checks-found_example :
    run_diff_checks
      (record { author = none; email = none; commit_message = none })
      (record { filename = "a"; new_mode = some 40960 } ∷ [])
      (prevent_symlinks ∷ wpt_sync ∷ [])
    ≡ issues_of (
        map
          (λ c. result (
            found_in
              (record { author = none; email = none; commit_message = none })
              (record { filename = "a"; new_mode = some 40960 } ∷ [])
              c))
          (prevent_symlinks ∷ wpt_sync ∷ []))
run_diff_checks-found_example =
    run_diff_checks-found (record { author = none; email = none; commit_message = none })
      (record { filename = "a"; new_mode = some 40960 } ∷ []) (prevent_symlinks ∷ wpt_sync ∷ [])

run_patch_collection_checks-messages_example :
    run_patch_collection_checks rules
      (commit_messages ∷ [])
      (prevent_submodules ∷ [])
      (map patch_helper (bad_patch ∷ []))
    ≡ returned (
        diff_issues rules (prevent_submodules ∷ []) (bad_patch ∷ [])
        ++ issues_of (
            (if any ignores (bad_patch ∷ [])
              then none
              else joined_issues rules (issues_in rules (bad_patch ∷ [])))
            ∷ []))
run_patch_collection_checks-messages_example =
    run_patch_collection_checks-messages rules (prevent_submodules ∷ []) (bad_patch ∷ [])

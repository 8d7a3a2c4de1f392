-- ===== src/Patch/Checks/Collection.antt =====
-- The checks of a collection of patches in landoapi/hgexports.py, and `PatchCollectionAssessor`.
pub mod Messages
mod Examples
use Prim.Native.String
use lando_api.Common.{
  keep, nat_eq, string_eq, is_empty, ◌+◌, inr, ◌++◌, leb, first, ◌||◌, some, ◌&&◌, elem, inl,
  nat_beq, ◌==◌, map, not, or_default, if◌then◌else◌, ◌⊎◌, none, true, ◌∷◌, [], false, Option, List,
  ℕ, String, Bool,
}
use lando_api.Common.Exec.{returned, ◌>>>◌, Outcome}
use lando_api.Patch.Checks.{issues_of, run_diff_checks, PatchCheck}
use lando_api.Common.Search.{contains}
use lando_api.Common.Text.{join, splitlines, decimal, is_truthy, text}
use lando_api.Assessment.State.{ParsedFile}
use Prim.Native.Char.{code}

-- What an assessment reads of a `PatchHelper`.
pub record PatchHelper : Type 0 where
  pub commit_description : String
  pub author_information : Outcome (String × String)
  pub diff : Outcome String

-- The regular expressions of landoapi/commit_message.py, the parser of diffs, and Bugzilla, whose
-- answer is the text of an exception or a value.
pub record Rules : Type 0 where
  pub is_backout : String → Bool
  -- `parse_backouts(firstline, strict=True)[0]`, if there are backouts.
  pub parse_backouts : String → Option (List String)
  pub has_invalid_review_flag : String → Bool
  pub has_acceptable_format : String → Bool
  pub parse_bugs : String → List ℕ
  pub search_bugs : List ℕ → String ⊎ List ℕ
  pub get_status_code_for_bug : ℕ → String ⊎ ℕ
  -- The element that `pop` takes of a set with an element.
  pub pop : ℕ → List ℕ → ℕ
  pub get_diffs : String → List ParsedFile

-- The subclasses of `PatchCollectionCheck`, and their instances.
pub data CollectionCheck : Type 0 where
  commit_messages bug_references : CollectionCheck

pub data CollectionState : Type 0 where
  message_state : (ignore_bad_commit_message : Bool) → (issues : List String) → CollectionState
  bug_state : (bug_ids : List ℕ) → (skip_check : Bool) → CollectionState

unfoldable pub new_collection_check : CollectionCheck → CollectionState
new_collection_check commit_messages = message_state false []
new_collection_check bug_references = bug_state [] false

-- A character as `lower` makes it, for a comparison with a small ASCII letter.
lower : ℕ → ℕ
lower c = if leb 65 c && leb c 90 then c + 32 else if nat_beq c 8490 then 107 else c

-- `s.lower().startswith(prefix)`
unfoldable pub lower_starts_with : (prefix s : String) → Bool
unfolding lower
lower_starts_with String.[] s = true
lower_starts_with (String.◌∷◌ p prefix) String.[] = false
lower_starts_with (String.◌∷◌ p prefix) (String.◌∷◌ c s) =
    nat_beq (code p) (lower (code c)) && lower_starts_with prefix s

-- A text that is not empty has a first line.
unfoldable pub first_line_of : String → String
first_line_of message = or_default (first (splitlines message)) ""

-- `not backouts or not backouts[0]`
is_malformed : Option (List String) → Bool
is_malformed none = true
is_malformed (some nodes) = is_empty nodes

unfoldable pub has_ignore_phrase : String → Bool
has_ignore_phrase message = contains "IGNORE BAD COMMIT MESSAGES" (first_line_of message)

union : List ℕ → List ℕ → List ℕ
union xs [] = xs
union xs (y ∷ ys) = union (if elem y xs then xs else xs ++ y ∷ []) ys

bmo_skip_hint : String
bmo_skip_hint = "Use `SKIP_BMO_CHECK` in your commit message to push anyway."

bmo_error : String → String
unfolding bmo_skip_hint
bmo_error e = text (
    "Could not contact BMO to check for security bugs referenced in commit message. "
    ∷ bmo_skip_hint ∷ ". Error: " ∷ e ∷ "." ∷ [])

-- What the status code says of a bug that was not found.
bug_message : (bug_id status_code : ℕ) → String
unfolding bmo_skip_hint
bug_message bug_id status_code =
    if status_code == 401
    then text (
        "Your commit message references bug "
        ∷ decimal bug_id
        ∷ ", which is currently private. To avoid "
        ∷ "disclosing the nature of this bug publicly, please remove the affected bug ID "
        ∷ "from the commit message. "
        ∷ bmo_skip_hint
        ∷ [])
    else if status_code == 404
    then text (
        "Your commit message references bug "
        ∷ decimal bug_id
        ∷ ", which does not exist. "
        ∷ "Please check your commit message and try again. "
        ∷ bmo_skip_hint
        ∷ [])
    else text (
        "While checking if bug "
        ∷ decimal bug_id
        ∷ " in your commit message is a security bug, "
        ∷ "an error occurred and the bug could not be verified. "
        ∷ bmo_skip_hint
        ∷ [])

module _ (rules : Rules) where
  -- The issue of a first line, behind the tests for the phrase that ignores them.
  unfoldable pub line_issue : (author line : String) → Option String
  unfolding is_malformed
  line_issue author line =
      if rules.is_backout line && is_malformed (rules.parse_backouts line)
      then some "Revision is a backout but commit message does not indicate backed out revisions."
      else if elem author ("ffxbld" ∷ "seabld" ∷ "tbirdbld" ∷ "cltbld" ∷ [])
      then none
      else if contains "[PATCH" line
      then some
          "Revision contains git-format-patch '[PATCH]' cruft. Use git-format-patch -k to avoid this."
      else if rules.has_invalid_review_flag line
      then some "Revision contains 'r?' in the commit message. Please use 'r=' instead."
      else if lower_starts_with "wip:" line
      then some "Revision seems to be marked as WIP."
      else if rules.has_acceptable_format line
      then none
      else if lower_starts_with "back" line || lower_starts_with "revert" line
      then some "Backout revision needs a bug number or a rev id."
      else some "Revision needs 'Bug N' or 'No bug' in the commit message."

  unfoldable pub list_issue : Option String → List String
  list_issue none = []
  list_issue (some issue) = issue ∷ []

  -- `CommitMessagesCheck.next_diff`
  unfoldable pub note_message : (author message : String) → Bool → List String → Bool × List String
  note_message author message ignore issues =
      if not (is_truthy message)
      then (ignore, issues ++ "Revision has an empty commit message." ∷ [])
      else if ignore || has_ignore_phrase message
      then (true, issues)
      else (ignore, issues ++ list_issue (line_issue author (first_line_of message)))

  -- `BugReferencesCheck.next_diff`
  note_bugs : (message : String) → List ℕ → Bool → CollectionState
  unfolding union
  note_bugs message bug_ids skip =
      if skip || contains "SKIP_BMO_CHECK" message
      then bug_state bug_ids true
      else bug_state (union bug_ids (rules.parse_bugs message)) skip

  unfoldable pub next_patch : PatchHelper → CollectionState → Outcome CollectionState
  unfolding note_bugs
  next_patch helper (message_state ignore issues) = helper.author_information >>> λ a.
      let noted = note_message a.0 helper.commit_description ignore issues in
      returned (message_state noted.0 noted.1)
  next_patch helper (bug_state bug_ids skip) =
      returned (note_bugs helper.commit_description bug_ids skip)

  -- The message for the bugs that were not found.
  invalid_message : List ℕ → Option String
  unfolding bmo_error bug_message
  invalid_message [] = none
  invalid_message (bug ∷ bugs) =
      let bug_id = rules.pop bug bugs in
      elim (rules.get_status_code_for_bug bug_id) [
        | inl e ↦ some (bmo_error e)
        | inr status_code ↦ some (bug_message bug_id status_code)
      ]

  unfoldable pub collection_result : CollectionState → Option String
  unfolding invalid_message
  collection_result (message_state ignore issues) =
      if not ignore && not (is_empty issues) then some (join ", " issues) else none
  collection_result (bug_state bug_ids skip) =
      if skip || is_empty bug_ids then none else elim (rules.search_bugs bug_ids) [
        | inl e ↦ some (bmo_error e)
        | inr found ↦ invalid_message (keep (λ b. not (elem b found)) bug_ids)
      ]

  unfoldable pub pass_patch : PatchHelper → List CollectionState → Outcome (List CollectionState)
  pass_patch helper [] = returned []
  pass_patch helper (check ∷ checks) =
      next_patch helper check >>> λ c. pass_patch helper checks >>> λ cs. returned (c ∷ cs)

  -- The loop over the patches: the states of the checks, and the issues of the patches.
  unfoldable pub run_patches :
      List PatchCheck
      → List PatchHelper
      → List CollectionState
      → Outcome (List CollectionState × List String)
  run_patches patch_checks [] checks = returned (checks, [])
  run_patches patch_checks (helper ∷ helpers) checks = pass_patch helper checks >>> λ passed.
      helper.diff >>> λ diff. helper.author_information >>> λ a.
      run_patches patch_checks helpers passed >>> λ rest. returned (
        rest.0,
        run_diff_checks
              (record {
                author = some a.0;
                email = some a.1;
                commit_message = some helper.commit_description;
              })
              (rules.get_diffs diff) patch_checks
            ++ rest.1,
      )

  unfoldable pub run_patch_collection_checks :
      List CollectionCheck → List PatchCheck → List PatchHelper → Outcome (List String)
  run_patch_collection_checks collection_checks patch_checks helpers =
      run_patches patch_checks helpers (map new_collection_check collection_checks) >>> λ done.
      returned (done.1 ++ issues_of (map collection_result done.0))

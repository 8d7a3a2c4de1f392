-- ===== src/Patch/Checks.antt =====
-- The checks of one patch in landoapi/hgexports.py, and `DiffAssessor`, which runs them.
pub mod Reasons
pub mod Collection
use Prim.Native.String
use lando_api.Assessment.State.{ParsedFile}
use lando_api.Common.{
  option_eq, not, string_eq, ◌&&◌, ◌++◌, is_empty, ◌||◌, nat_beq, false, if◌then◌else◌, true, some,
  ◌==◌, none, map, ◌∷◌, Option, List, String, Bool, [],
}
use lando_api.Common.Text.{is_truthy, join, text}
use lando_api.Assessment.Blockers.{is_symlink}
use Prim.Native.Char.{code}
use lando_api.Common.Search.{contains, starts_with}

-- The fields of `PatchCheck`, which each check gets.
pub record PatchInfo : Type 0 where
  pub author : Option String
  pub email : Option String
  pub commit_message : Option String

-- The subclasses of `PatchCheck`.
pub data PatchCheck : Type 0 where
  prevent_symlinks try_task_config prevent_nspr_nss prevent_submodules wpt_sync : PatchCheck

-- An instance of a check, with the fields that `next_diff` changes.
pub data CheckState : Type 0 where
  symlinked_files : List String → CheckState
  includes_try_task_config : Bool → CheckState
  disallowed_changes : (nss nspr : List String) → CheckState
  includes_gitmodules : Bool → CheckState
  wpt_disallowed_files : List String → CheckState

unfoldable pub new_check : PatchCheck → CheckState
new_check prevent_symlinks = symlinked_files []
new_check try_task_config = includes_try_task_config false
new_check prevent_nspr_nss = disallowed_changes [] []
new_check prevent_submodules = includes_gitmodules false
new_check wpt_sync = wpt_disallowed_files []

unfoldable pub wrap_filenames : List String → String
wrap_filenames filenames = join "," (map (λ f. text ("`" ∷ f ∷ "`" ∷ [])) filenames)

-- What follows a prefix.
after_prefix : (prefix s : String) → Option String
after_prefix String.[] s = some s
after_prefix (String.◌∷◌ p prefix) String.[] = none
after_prefix (String.◌∷◌ p prefix) (String.◌∷◌ c s) =
    let rest = after_prefix prefix s in if nat_beq (code p) (code c) then rest else none

-- `.*$`: no line feed but a last one.
to_end : String → Bool
to_end String.[] = true
to_end (String.◌∷◌ c s) =
    let rest = to_end s in if nat_beq (code c) 10 then not (is_truthy s) else rest

-- `(?:moz\.build|meta/.*|tests/.*)$`
allowed_below : String → Bool
unfolding after_prefix to_end
allowed_below s =
    s == "moz.build"
    || s == "moz.build\n"
    || (starts_with "meta/" s || starts_with "tests/" s) && to_end s

-- `WPT_SYNC_ALLOWED_PATHS_RE.match(filename)`
unfoldable pub is_wpt_path : String → Bool
unfolding allowed_below after_prefix
is_wpt_path filename = elim (after_prefix "testing/web-platform/" filename) [
  | none ↦ false
  | some rest ↦ allowed_below rest
]

-- `xs.append(x)` under a condition.
abbrev pub append_if : Bool → String → List String → List String
append_if b x xs = if b then xs ++ x ∷ [] else xs

-- A file below a directory that the message, if there is one, does not allow to change.
unfoldable pub is_disallowed : (directory phrase : String) → Option String → ParsedFile → Bool
is_disallowed directory phrase none file = false
is_disallowed directory phrase (some message) file =
    is_truthy message && (starts_with directory file.filename && not (contains phrase message))

unfoldable pub next_diff : PatchInfo → ParsedFile → CheckState → CheckState
next_diff info file (symlinked_files files) =
    symlinked_files (append_if (is_symlink file) file.filename files)
next_diff info file (includes_try_task_config b) =
    includes_try_task_config (b || file.filename == "try_task_config.json")
next_diff info file (disallowed_changes nss nspr) =
    disallowed_changes
      (append_if (is_disallowed "security/nss/" "UPGRADE_NSS_RELEASE" info.commit_message file)
        file.filename nss)
      (append_if (is_disallowed "nsprpub/" "UPGRADE_NSPR_RELEASE" info.commit_message file)
        file.filename nspr)
next_diff info file (includes_gitmodules b) =
    includes_gitmodules (b || file.filename == ".gitmodules")
next_diff info file (wpt_disallowed_files files) = wpt_disallowed_files (
    append_if (info.email == some "wptsync@mozilla.com" && not (is_wpt_path file.filename))
      file.filename files)

-- The directories that were changed, behind their title.
section : (title : String) → List String → List String
section title [] = []
section title (f ∷ files) = title ∷ wrap_filenames (f ∷ files) ∷ []

unfoldable pub build_prevent_nspr_nss_error_message : (nss nspr : List String) → String
unfolding section
build_prevent_nspr_nss_error_message nss nspr = text (
    join " " (
      "Revision makes changes to restricted directories:" ∷ section "vendored NSS directories:" nss
      ++ section "vendored NSPR directories:" nspr)
    ∷ "."
    ∷ [])

unfoldable pub result : CheckState → Option String
result (symlinked_files []) = none
result (symlinked_files (f ∷ files)) =
    some
      (text ("Revision introduces symlinks in the files " ∷ wrap_filenames (f ∷ files) ∷ "." ∷ []))
result (includes_try_task_config b) =
    if b then some "Revision introduces the `try_task_config.json` file." else none
result (disallowed_changes nss nspr) =
    if is_empty nss && is_empty nspr
    then none
    else some (build_prevent_nspr_nss_error_message nss nspr)
result (includes_gitmodules b) =
    if b then some "Revision introduces a Git submodule into the repository." else none
result (wpt_disallowed_files []) = none
result (wpt_disallowed_files (f ∷ files)) = some (
    text (
      "Revision has WPTSync bot making changes to disallowed files "
      ∷ wrap_filenames (f ∷ files)
      ∷ "."
      ∷ []))

-- The loop over the files, with the loop over the checks in it.
unfoldable pub pass_diffs : PatchInfo → List ParsedFile → List CheckState → List CheckState
unfolding next_diff
pass_diffs info [] checks = checks
pass_diffs info (file ∷ files) checks = pass_diffs info files (map (next_diff info file) checks)

-- `if issue := check.result(): issues.append(issue)`
unfoldable pub issues_of : List (Option String) → List String
issues_of [] = []
issues_of (none ∷ found) = issues_of found
issues_of (some issue ∷ found) =
    if is_truthy issue then issue ∷ issues_of found else issues_of found

unfoldable pub run_diff_checks : PatchInfo → List ParsedFile → List PatchCheck → List String
unfolding pass_diffs issues_of result new_check
run_diff_checks info parsed_diff patch_checks =
    issues_of (map result (pass_diffs info parsed_diff (map new_check patch_checks)))

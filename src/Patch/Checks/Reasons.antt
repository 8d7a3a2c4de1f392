-- ===== src/Patch/Checks/Reasons.antt =====
-- What the checks of a patch find, file by file and at once.
use lando_api.Patch.Checks.{
  issues_of, run_diff_checks, new_check, result, prevent_symlinks, wpt_sync, prevent_submodules,
  prevent_nspr_nss, try_task_config, is_wpt_path, wpt_disallowed_files, includes_gitmodules,
  is_disallowed, disallowed_changes, includes_try_task_config, append_if, symlinked_files,
  CheckState, PatchCheck, next_diff, PatchInfo, pass_diffs,
}
use lando_api.Assessment.State.{ParsedFile}
use lando_api.Common.{
  true, false, ◌||◌, option_eq, string_eq, not, ◌&&◌, some, inr, ◌==◌, append_assoc, refl,
  append_nil, inl, sym, ◌∙◌, any, Bool-cases, ap, keep, [], ◌++◌, ◌≡◌, map, ◌∷◌, String, List, Bool,
}
use lando_api.Assessment.Blockers.{is_symlink}

-- The names of the files with a property.
abbrev pub names_of : (ParsedFile → Bool) → List ParsedFile → List String
names_of p files = map (λ f. f.filename) (keep p files)

-- What a check finds in the files of a patch.
abbrev pub found_in : PatchInfo → List ParsedFile → PatchCheck → CheckState
found_in info files prevent_symlinks = symlinked_files (names_of is_symlink files)
found_in info files try_task_config =
    includes_try_task_config (any (λ f. f.filename == "try_task_config.json") files)
found_in info files prevent_nspr_nss =
    disallowed_changes
      (names_of (is_disallowed "security/nss/" "UPGRADE_NSS_RELEASE" info.commit_message) files)
      (names_of (is_disallowed "nsprpub/" "UPGRADE_NSPR_RELEASE" info.commit_message) files)
found_in info files prevent_submodules =
    includes_gitmodules (any (λ f. f.filename == ".gitmodules") files)
found_in info files wpt_sync =
    wpt_disallowed_files (
      names_of (λ f. info.email == some "wptsync@mozilla.com" && not (is_wpt_path f.filename))
        files)

pass_diff : PatchInfo → List ParsedFile → CheckState → CheckState
pass_diff info [] check = check
pass_diff info (file ∷ files) check = pass_diff info files (next_diff info file check)

pass_diffs-map :
    (info : PatchInfo) (files : List ParsedFile) (checks : List CheckState)
    → pass_diffs info files checks ≡ map (pass_diff info files) checks
unfolding pass_diffs pass_diff
pass_diffs-map info [] [] = refl
pass_diffs-map info [] (c ∷ checks) = ap (λ l. c ∷ l) (pass_diffs-map info [] checks)
pass_diffs-map info (file ∷ files) checks =
    pass_diffs-map info files (map (next_diff info file) checks) ∙ after checks
  where
    after :
        (checks : List CheckState)
        → map (pass_diff info files) (map (next_diff info file) checks)
          ≡ map (pass_diff info (file ∷ files)) checks
    after [] = refl
    after (c ∷ checks) = ap (λ l. pass_diff info files (next_diff info file c) ∷ l) (after checks)

append_if-names :
    (p : ParsedFile → Bool) (file : ParsedFile) (files : List ParsedFile) (before : List String)
    → append_if (p file) file.filename before ++ names_of p files
      ≡ before ++ names_of p (file ∷ files)
append_if-names p file files before = elim (Bool-cases (p file)) [
  | inl t ↦ rw t (append_assoc before (file.filename ∷ []) (names_of p files))
  | inr f ↦ rw f refl
]

-- The state of a check when some files have been passed, behind what was there before.
symlinks-passed :
    (info : PatchInfo) (files : List ParsedFile) (before : List String)
    → pass_diff info files (symlinked_files before)
      ≡ symlinked_files (before ++ names_of is_symlink files)
unfolding pass_diff next_diff
symlinks-passed info [] before = ap symlinked_files (sym (append_nil before))
symlinks-passed info (file ∷ files) before =
    symlinks-passed info files (append_if (is_symlink file) file.filename before)
    ∙ ap symlinked_files (append_if-names is_symlink file files before)

wpt-passed :
    (info : PatchInfo) (files : List ParsedFile) (before : List String)
    → pass_diff info files (wpt_disallowed_files before)
      ≡ wpt_disallowed_files (
          before
          ++ names_of
              (λ f. info.email == some "wptsync@mozilla.com" && not (is_wpt_path f.filename))
              files)
unfolding pass_diff next_diff
wpt-passed info [] before = ap wpt_disallowed_files (sym (append_nil before))
wpt-passed info (file ∷ files) before =
    let p = λ (f : ParsedFile).
      info.email == some "wptsync@mozilla.com" && not (is_wpt_path f.filename) in
    wpt-passed info files (append_if (p file) file.filename before)
    ∙ ap wpt_disallowed_files (append_if-names p file files before)

directories-passed :
    (info : PatchInfo) (files : List ParsedFile) (nss nspr : List String)
    → pass_diff info files (disallowed_changes nss nspr)
      ≡ disallowed_changes
          (nss
            ++ names_of
                (is_disallowed "security/nss/" "UPGRADE_NSS_RELEASE" info.commit_message)
                files)
          (nspr
            ++ names_of (is_disallowed "nsprpub/" "UPGRADE_NSPR_RELEASE" info.commit_message) files)
unfolding pass_diff next_diff
directories-passed info [] nss nspr =
    ap (λ l. disallowed_changes l nspr) (sym (append_nil nss))
    ∙ ap (disallowed_changes (nss ++ [])) (sym (append_nil nspr))
directories-passed info (file ∷ files) nss nspr =
    let p = is_disallowed "security/nss/" "UPGRADE_NSS_RELEASE" info.commit_message in
    let q = is_disallowed "nsprpub/" "UPGRADE_NSPR_RELEASE" info.commit_message in
    directories-passed info files (append_if (p file) file.filename nss)
      (append_if (q file) file.filename nspr)
    ∙ ap (λ l. disallowed_changes l (append_if (q file) file.filename nspr ++ names_of q files))
        (append_if-names p file files nss)
    ∙ ap (disallowed_changes (nss ++ names_of p (file ∷ files))) (append_if-names q file files nspr)

or_assoc : (a b c : Bool) → ((a || b) || c) ≡ (a || (b || c))
or_assoc true b c = refl
or_assoc false b c = refl

or_false : (a : Bool) → a ≡ (a || false)
or_false true = refl
or_false false = refl

config-passed :
    (info : PatchInfo) (files : List ParsedFile) (b : Bool)
    → pass_diff info files (includes_try_task_config b)
      ≡ includes_try_task_config (b || any (λ f. f.filename == "try_task_config.json") files)
unfolding pass_diff next_diff
config-passed info [] b = ap includes_try_task_config (or_false b)
config-passed info (file ∷ files) b =
    config-passed info files (b || file.filename == "try_task_config.json")
    ∙ ap includes_try_task_config (
        or_assoc b (file.filename == "try_task_config.json")
          (any (λ f. f.filename == "try_task_config.json") files))

gitmodules-passed :
    (info : PatchInfo) (files : List ParsedFile) (b : Bool)
    → pass_diff info files (includes_gitmodules b)
      ≡ includes_gitmodules (b || any (λ f. f.filename == ".gitmodules") files)
unfolding pass_diff next_diff
gitmodules-passed info [] b = ap includes_gitmodules (or_false b)
gitmodules-passed info (file ∷ files) b =
    gitmodules-passed info files (b || file.filename == ".gitmodules")
    ∙ ap includes_gitmodules
        (or_assoc b (file.filename == ".gitmodules") (any (λ f. f.filename == ".gitmodules") files))

check-passed :
    (info : PatchInfo) (files : List ParsedFile) (check : PatchCheck)
    → pass_diff info files (new_check check) ≡ found_in info files check
unfolding new_check
check-passed info files prevent_symlinks = symlinks-passed info files []
check-passed info files try_task_config = config-passed info files false
check-passed info files prevent_nspr_nss = directories-passed info files [] []
check-passed info files prevent_submodules = gitmodules-passed info files false
check-passed info files wpt_sync = wpt-passed info files []

results :
    (info : PatchInfo) (files : List ParsedFile) (checks : List PatchCheck)
    → map result (map (pass_diff info files) (map new_check checks))
      ≡ map (λ c. result (found_in info files c)) checks
results info files [] = refl
results info files (c ∷ checks) =
    ap (λ s. result s ∷ map result (map (pass_diff info files) (map new_check checks)))
      (check-passed info files c)
    ∙ ap (λ l. result (found_in info files c) ∷ l) (results info files checks)

-- The issues of a patch are those of its checks, in the order of the checks: of the symlinks among its
-- files, of a file try_task_config.json or .gitmodules, of the files below the directories of NSS and
-- NSPR that the commit message does not allow to change, and of the files that the bot of WPT may not
-- change, each with the files in the order of the patch.
pub run_diff_checks-found :
    (info : PatchInfo) (files : List ParsedFile) (checks : List PatchCheck)
    → run_diff_checks info files checks
      ≡ issues_of (map (λ c. result (found_in info files c)) checks)
unfolding run_diff_checks
run_diff_checks-found info files checks =
    ap (λ l. issues_of (map result l)) (pass_diffs-map info files (map new_check checks))
    ∙ ap issues_of (results info files checks)

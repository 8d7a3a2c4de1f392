-- ===== src/Patch/Checks/Collection/Messages.antt =====
-- The messages of a collection of patches: what `CommitMessagesCheck` finds in them together.
use lando_api.Patch.Checks.Collection.{
  commit_messages, new_collection_check, run_patch_collection_checks, first_line_of, line_issue,
  list_issue, has_ignore_phrase, next_patch, message_state, pass_patch, collection_result,
  run_patches, note_message, PatchHelper, Rules,
}
use lando_api.Common.{
  append_assoc, true, false, append_nil, sym, ap, ◌∙◌, refl, any, true, ◌++◌, none, map, some,
  is_empty, ◌||◌, [], if◌then◌else◌, ◌≡◌, ◌&&◌, Option, ◌∷◌, List, Bool, String,
}
use lando_api.Common.Text.{join, is_truthy}
use lando_api.Common.Exec.{◌>>>◌, returned}
use lando_api.Patch.Checks.{issues_of, run_diff_checks, PatchCheck}

-- A patch whose author and diff can be read.
pub record PatchText : Type 0 where
  pub author : String
  pub email : String
  pub description : String
  pub diff : String

abbrev pub patch_helper : PatchText → PatchHelper
patch_helper p = record {
  commit_description = p.description;
  author_information = returned (p.author, p.email);
  diff = returned p.diff;
}

-- The message has the phrase in its first line.
abbrev pub ignores : PatchText → Bool
ignores p = is_truthy p.description && has_ignore_phrase p.description

module _ (rules : Rules) where
  abbrev pub issues_in : List PatchText → List String
  issues_in [] = []
  issues_in (p ∷ patches) =
      (if is_truthy p.description
        then list_issue rules (line_issue rules p.author (first_line_of p.description))
        else "Revision has an empty commit message." ∷ [])
      ++ issues_in patches

  -- The issues of the patches by themselves, one patch after the other.
  abbrev pub diff_issues : List PatchCheck → List PatchText → List String
  diff_issues checks [] = []
  diff_issues checks (p ∷ patches) =
      run_diff_checks
        (record {
          author = some p.author;
          email = some p.email;
          commit_message = some p.description;
        })
        (rules.get_diffs p.diff) checks
      ++ diff_issues checks patches

  abbrev pub joined_issues : List String → Option String
  joined_issues issues = if is_empty issues then none else some (join ", " issues)

  note_all : List PatchText → Bool × List String → Bool × List String
  note_all [] noted = noted
  note_all (p ∷ patches) noted =
      note_all patches (note_message rules p.author p.description noted.0 noted.1)

  run_patches-noted :
      (checks : List PatchCheck) (patches : List PatchText) (noted : Bool × List String)
      → run_patches rules checks (map patch_helper patches) (message_state noted.0 noted.1 ∷ [])
        ≡ returned (
          message_state (note_all patches noted).0 (note_all patches noted).1 ∷ [],
          diff_issues checks patches,
        )
  unfolding run_patches pass_patch next_patch note_all
  run_patches-noted checks [] noted = refl
  run_patches-noted checks (p ∷ patches) noted =
      rw
        (run_patches-noted checks patches
          (note_message rules p.author p.description noted.0 noted.1))
        refl

  no_issue :
      (ignore : Bool) (issues : List String)
      → collection_result rules (message_state ignore issues)
        ≡ (if ignore then none else joined_issues issues)
  unfolding collection_result
  no_issue true issues = refl
  no_issue false [] = refl
  no_issue false (x ∷ issues) = refl

  abbrev summary : Bool → List String → List PatchText → Option String
  summary ignore issues patches =
      if ignore || any ignores patches then none else joined_issues (issues ++ issues_in patches)

  result_from : List PatchText → Bool × List String → Option String
  result_from patches noted =
      collection_result rules (message_state (note_all patches noted).0 (note_all patches noted).1)

  note_all-result :
      (patches : List PatchText) (ignore : Bool) (issues : List String)
      → result_from patches (ignore, issues) ≡ summary ignore issues patches
  unfolding note_all result_from note_message
  note_all-result [] true issues = no_issue true issues
  note_all-result [] false issues =
      no_issue false issues ∙ ap joined_issues (sym (append_nil issues))
  note_all-result (p ∷ patches) ignore issues =
      first_noted p patches ignore issues (is_truthy p.description)
        (has_ignore_phrase p.description) refl refl (note_all-result patches)
    where
      empty_issue : List String
      empty_issue = "Revision has an empty commit message." ∷ []

      line_issues : PatchText → List String
      line_issues p = list_issue rules (line_issue rules p.author (first_line_of p.description))

      first_noted :
          (p : PatchText) (patches : List PatchText) (ignore : Bool) (issues : List String)
          (has_text has_phrase : Bool)
          → is_truthy p.description ≡ has_text
          → has_ignore_phrase p.description ≡ has_phrase
          → ((i : Bool) (l : List String) → result_from patches (i, l) ≡ summary i l patches)
          → result_from patches (note_message rules p.author p.description ignore issues)
            ≡ summary ignore issues (p ∷ patches)
      first_noted p patches true issues true b t u k =
          ap (result_from patches) (rw (t, note_message) refl) ∙ k true issues
      first_noted p patches true issues false b t u k =
          ap (result_from patches) (rw (t, note_message) refl) ∙ k true (issues ++ empty_issue)
      first_noted p patches false issues true true t u k =
          let s : summary false issues (p ∷ patches) ≡ none = rw t (rw u refl) in
          ap (result_from patches) (rw (t, note_message) (rw (u, note_message) refl))
          ∙ k true issues
          ∙ sym s
      first_noted p patches false issues true false t u k =
          let s : summary false issues (p ∷ patches)
              ≡ summary false (issues ++ line_issues p) patches =
            rw t (
              rw u (
                ap (λ l. if any ignores patches then none else joined_issues l)
                  (sym (append_assoc issues (line_issues p) (issues_in patches))))) in
          ap (result_from patches) (rw (t, note_message) (rw (u, note_message) refl))
          ∙ k false (issues ++ line_issues p)
          ∙ sym s
      first_noted p patches false issues false b t u k =
          let s : summary false issues (p ∷ patches)
              ≡ summary false (issues ++ empty_issue) patches =
            rw t (
              ap (λ l. if any ignores patches then none else joined_issues l)
                (sym (append_assoc issues empty_issue (issues_in patches)))) in
          ap (result_from patches) (rw (t, note_message) refl)
          ∙ k false (issues ++ empty_issue)
          ∙ sym s

  -- For patches whose author and diff can be read, the check of the commit messages, beside checks of
  -- the patches, gives at most one issue, behind those of the patches: the issues of the messages in
  -- the order of the patches, joined by commas. If the first line of one message has the phrase to
  -- ignore bad messages, it gives none for all of them, also for those before.
  pub run_patch_collection_checks-messages :
      (checks : List PatchCheck) (patches : List PatchText)
      → run_patch_collection_checks rules (commit_messages ∷ []) checks (map patch_helper patches)
        ≡ returned (
            diff_issues checks patches
            ++ issues_of
                ((if any ignores patches then none else joined_issues (issues_in patches)) ∷ []))
  unfolding run_patch_collection_checks new_collection_check result_from
  run_patch_collection_checks-messages checks patches =
      ap (λ o. o >>> λ done. returned (done.1 ++ issues_of (map (collection_result rules) done.0)))
        (run_patches-noted checks patches (false, []))
      ∙ ap (λ r. returned (diff_issues checks patches ++ issues_of (r ∷ [])))
          (note_all-result patches false [])

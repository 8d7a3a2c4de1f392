-- ===== src/Patch/Injection.antt =====
-- A commit message whose first line looks like the header with the start of the diff.
use lando_api.Common.{
  ◌≡◌, refl, sym, ap, ◌∙◌, subst, false, none, some, List, String, [], ◌∷◌, ◌++◌, map, All, ℕ, suc,
  if◌then◌else◌,
}
use lando_api.Common.Text.{text, splitlines, decimal, is_truthy}
use lando_api.Common.Search.{starts_with, strip, lstrip, rstrip, keep_unless_last, is_space}
use lando_api.Common.Int.{int_of, signed, scan_digits, positive}
use lando_api.Common.Exec.{returned}
use lando_api.Patch.{
  file_lines, Headers, header_names, header_value, set_from_line, parse_header, HgPatchHelper,
  hg_patch_helper, helper_of, int_or_none, starts_diff, diff_from, get_diff, get_header,
  diff_start_line, until_line_feed, is_diff_line,
}
use lando_api.Patch.Lines.{IsLine, ended, text-file_lines, splitlines-IsLine}
use lando_api.Patch.Reading.{
  onto, ended-onto, user_text, date_text, build_patch-lines, until_line_feed-ended,
}
use lando_api.Patch.Headers.{
  header_more, header_end, begins, all_lines, first_headers, parse_header-headers,
}
use package.text.Mathlib.TextLemmas.{cons-append, append_assoc, nil-append}
use Prim.Native.String
use lando_api.Patch.Build.{diff_start, build_patch_for_revision}

abbrev pub false_header : String → String
false_header t = String.◌++◌ "# Diff Start Line " (String.◌∷◌ "x" t)

kept_first : (r : String) → (v : String) × (keep_unless_last "x" r ≡ String.◌∷◌ "x" v)
unfolding keep_unless_last is_space
kept_first String.[] = ("", refl)
kept_first (String.◌∷◌ c r) = (String.◌∷◌ c r, refl)

IsLine-behind : (s r : String) → IsLine (String.◌++◌ s r) → IsLine r
IsLine-behind String.[] r h = subst IsLine (nil-append r) h
IsLine-behind (String.◌∷◌ c s) r h =
    let h' : IsLine (String.◌∷◌ c (String.◌++◌ s r)) = subst IsLine (cons-append c s r) h in
    IsLine-behind s r h'.1

-- Its value begins with a letter.
false_value :
    (t : String)
    → IsLine (String.◌∷◌ "x" t)
    → (v : String) × (strip (until_line_feed (lstrip (ended (String.◌∷◌ "x" t))))
        ≡ String.◌∷◌ "x" v)
unfolding strip lstrip rstrip keep_unless_last is_space
false_value t h =
    let e : until_line_feed (lstrip (ended (String.◌∷◌ "x" t))) ≡ String.◌∷◌ "x" t =
      ap (λ s. until_line_feed (lstrip s)) (cons-append "x" t "\n")
      ∙ ap until_line_feed (sym (cons-append "x" t "\n"))
      ∙ until_line_feed-ended (String.◌∷◌ "x" t) h in
    let (v, k) = kept_first (rstrip t) in (v, ap strip e ∙ k)

false_header-sets :
    (t v : String) (hs : Headers)
    → strip (until_line_feed (lstrip (ended (String.◌∷◌ "x" t)))) ≡ String.◌∷◌ "x" v
    → set_from_line header_names (ended (false_header t)) hs
      ≡ (diff_start_line, String.◌∷◌ "x" v) ∷ hs
unfolding set_from_line header_value lstrip is_space
false_header-sets t v hs e =
    ap (λ s. set_from_line header_names s hs) (ended-onto "# Diff Start Line " (String.◌∷◌ "x" t))
    ∙ ap (λ (w : String). if is_truthy w then (diff_start_line, w) ∷ hs else hs) e

no_number : (v : String) → int_or_none (some (String.◌∷◌ "x" v)) ≡ none
unfolding int_or_none int_of strip lstrip is_space signed scan_digits positive rstrip
no_number v = let (w, e) = kept_first (rstrip v) in ap signed e

-- The lines of the patch are passed until the one that begins a diff.
diff_from-onto :
    (i : ℕ) (s r : String) (lines : List String)
    → is_diff_line (onto s (ended r)) ≡ false
    → diff_from none i (ended (String.◌++◌ s r) ∷ lines) ≡ diff_from none (suc i) lines
unfolding diff_from starts_diff
diff_from-onto i s r lines h = rw (ap is_diff_line (ended-onto s r) ∙ h) refl

text-append : (xs ys : List String) → text (xs ++ ys) ≡ String.◌++◌ (text xs) (text ys)
unfolding text
text-append [] ys = sym (nil-append (text ys))
text-append (x ∷ xs) ys =
    ap (String.◌++◌ x) (text-append xs ys) ∙ sym (append_assoc x (text xs) (text ys))

module _ (diff author_name author_email timestamp t v : String) (ls : List String)
    (value : strip (until_line_feed (lstrip (ended (String.◌∷◌ "x" t)))) ≡ String.◌∷◌ "x" v) where
  abbrev lines : List String
  lines =
      all_lines diff author_name author_email timestamp (false_header t)
        ("" ∷ "diff --git a b" ∷ ls)

  abbrev headers : Headers
  headers =
      (diff_start_line, String.◌∷◌ "x" v)
      ∷ first_headers diff author_name author_email timestamp (false_header t)
          ("" ∷ "diff --git a b" ∷ ls)

  abbrev injected : HgPatchHelper
  injected = record {
    lines = lines;
    headers = headers;
    header_end_line_no = 5;
    diff_start_line = none;
  }

  helper_of-injected : helper_of lines (parse_header lines (0, [])) ≡ returned injected
  unfolding helper_of get_header starts_with
  helper_of-injected =
      ap (helper_of lines) (
        parse_header-headers diff author_name author_email timestamp (false_header t)
          ("" ∷ "diff --git a b" ∷ ls)
        ∙ header_more (false_header t) _ 4 _ (begins "# Diff Start Line " (String.◌∷◌ "x" t) refl)
        ∙ header_end "" _ 5 _ refl
        ∙ ap (λ hs. (5, hs)) (false_header-sets t v _ value))
      ∙ rw (no_number v) refl

  diff-injected :
      get_diff injected
      ≡ String.◌++◌ (text (map ended ("diff --git a b" ∷ ls))) (String.◌++◌ "\n" diff)
  unfolding get_diff is_diff_line diff_from starts_diff lstrip is_space text
  diff-injected =
      ap text (
        diff_from-onto 2 "# User " (user_text diff author_name author_email timestamp) _ refl
        ∙ diff_from-onto 3 "# Date " (date_text diff author_name author_email timestamp) _ refl
        ∙ diff_from-onto 4 "# Diff Start Line "
            (decimal (diff_start (false_header t ∷ "" ∷ "diff --git a b" ∷ ls))) _ refl
        ∙ diff_from-onto 5 "# Diff Start Line " (String.◌∷◌ "x" t) _ refl
        ∙ diff_from-onto 6 "" "" (ended "diff --git a b" ∷ (map ended ls ++ "\n" ∷ file_lines diff))
            refl)
      ∙ text-append (map ended ("diff --git a b" ∷ ls)) ("\n" ∷ file_lines diff)
      ∙ ap (λ r. String.◌++◌ (text (map ended ("diff --git a b" ∷ ls))) (String.◌++◌ "\n" r))
          (text-file_lines diff)

-- If the first line of the commit message is `# Diff Start Line x` with any further text, the second
-- is empty and the third is `diff --git a b`, as the title and the summary of a revision can be, then
-- the patch helper takes the message from its third line on for the diff, with the diff of the revision
-- behind it.
pub get_diff-injected :
    (diff author_name author_email commit_message timestamp t : String) (ls : List String)
    → splitlines (strip commit_message) ≡ false_header t ∷ "" ∷ "diff --git a b" ∷ ls
    → (h : HgPatchHelper) × (hg_patch_helper
          (build_patch_for_revision diff author_name author_email commit_message timestamp)
        ≡ returned h)
      × (get_diff h
          ≡ String.◌++◌ (text (map ended ("diff --git a b" ∷ ls))) (String.◌++◌ "\n" diff))
unfolding hg_patch_helper
get_diff-injected diff author_name author_email commit_message timestamp t ls e =
    let message : All IsLine (false_header t ∷ "" ∷ "diff --git a b" ∷ ls) =
      subst (All IsLine) e (splitlines-IsLine (strip commit_message)) in
    let (v, value) =
      false_value t (IsLine-behind "# Diff Start Line " (String.◌∷◌ "x" t) message.0) in
    (
      injected diff author_name author_email timestamp t v ls value,
      ap (λ lines. helper_of lines (parse_header lines (0, [])))
            (build_patch-lines diff author_name author_email timestamp commit_message
              (false_header t) ("" ∷ "diff --git a b" ∷ ls) e)
          ∙ helper_of-injected diff author_name author_email timestamp t v ls value,
      diff-injected diff author_name author_email timestamp t v ls value,
    )

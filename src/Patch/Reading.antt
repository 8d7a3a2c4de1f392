-- ===== src/Patch/Reading.antt =====
-- What the patch helper reads of a patch that was built for a revision.
use lando_api.Common.{
  false, if◌then◌else◌, refl, true, subst, All, arith, ◌++◌, ◌≡◌, sym, ap, ◌∙◌, List, String, [],
  ◌∷◌, map, ℕ,
}
use lando_api.Common.Text.{is_truthy, text, join, splitlines, decimal}
use lando_api.Common.Search.{is_space, lstrip, strip}
use lando_api.Patch.{
  Char, until_line_feed, diff_start_line, header_names, Headers, header_value, set_from_line,
  file_lines,
}
use lando_api.Patch.Lines.{
  file_lines-line, is_line-IsLine, file_lines-map, splitlines-IsLine, no_line_breaks-IsLine,
  IsLine-append, IsLine, ended, text-ended,
}
use package.text.Mathlib.TextLemmas.{append_assoc, append-nil, cons-append, nil-append}
use Prim.Native.String
use lando_api.Common.Int.Decimal.{strip-digits, not_space, IsDigit, decimal-IsDigit, AllChars}
use lando_api.Patch.Build.{diff_start, build_patch_for_revision, no_line_breaks}

-- `s + r`, which computes on a literal `s`.
abbrev pub onto : String → String → String
onto String.[] r = r
onto (String.◌∷◌ c s) r = String.◌∷◌ c (onto s r)

append-onto : (s r : String) → String.◌++◌ s r ≡ onto s r
append-onto String.[] r = nil-append r
append-onto (String.◌∷◌ c s) r = cons-append c s r ∙ ap (String.◌∷◌ c) (append-onto s r)

pub ended-onto : (s r : String) → ended (String.◌++◌ s r) ≡ onto s (ended r)
ended-onto s r = append_assoc s r "\n" ∙ append-onto s (ended r)

digits-IsLine : (s : String) → AllChars IsDigit s → IsLine s
digits-IsLine String.[] h = tt
digits-IsLine (String.◌∷◌ c s) h = (ground arith, digits-IsLine s h.1)

decimal-IsLine : (k : ℕ) → IsLine (decimal k)
decimal-IsLine k =
    let (c, s, e, h, ks) = decimal-IsDigit k in
    subst IsLine (sym e) (digits-IsLine (String.◌∷◌ c s) (h, ks))

pub until_line_feed-ended : (s : String) → IsLine s → until_line_feed (ended s) ≡ s
unfolding until_line_feed
until_line_feed-ended String.[] h = refl
until_line_feed-ended (String.◌∷◌ c s) h =
    ap until_line_feed (cons-append c s "\n")
    ∙ rw (h.0) (ap (String.◌∷◌ c) (until_line_feed-ended s h.1))

pub lstrip-first :
    (c : Char) (s : String) → is_space c ≡ false → lstrip (String.◌∷◌ c s) ≡ String.◌∷◌ c s
unfolding lstrip
lstrip-first c s h = rw h refl

-- The value of a header that ends in a number.
field_value : (k : ℕ) → strip (until_line_feed (lstrip (ended (decimal k)))) ≡ decimal k
field_value k =
    let (c, s, e, h, ks) = decimal-IsDigit k in
    rw e (
      ap (λ t. strip (until_line_feed (lstrip t))) (cons-append c s "\n")
      ∙ ap (λ t. strip (until_line_feed t)) (lstrip-first c (String.◌++◌ s "\n") (not_space c h))
      ∙ ap (λ t. strip (until_line_feed t)) (sym (cons-append c s "\n"))
      ∙ ap strip (until_line_feed-ended (String.◌∷◌ c s) (digits-IsLine (String.◌∷◌ c s) (h, ks)))
      ∙ strip-digits c s h ks)

module _ (diff author_name author_email timestamp : String) where
  -- The line with the author, the date and the start of the diff.
  abbrev pub user_text : String
  user_text =
      String.◌++◌ (no_line_breaks author_name)
        (String.◌++◌ " <" (String.◌++◌ (no_line_breaks author_email) ">"))

  abbrev pub date_text : String
  date_text = no_line_breaks (text (timestamp ∷ " +0000" ∷ []))

  abbrev pub user_line : String
  user_line = String.◌++◌ "# User " user_text

  abbrev pub date_line : String
  date_line = String.◌++◌ "# Date " date_text

  abbrev pub start_line : ℕ → String
  start_line k = String.◌++◌ "# Diff Start Line " (decimal k)

  abbrev pub patch_lines : ℕ → List String → List String
  patch_lines k message = "# HG changeset patch" ∷ user_line ∷ date_line ∷ start_line k ∷ message

  build_patch-text :
      (commit_message l : String) (ls : List String)
      → splitlines (strip commit_message) ≡ l ∷ ls
      → build_patch_for_revision diff author_name author_email commit_message timestamp
        ≡ String.◌++◌
            (text (map ended (patch_lines (diff_start (l ∷ ls)) (l ∷ ls))))
            (String.◌++◌ "\n" diff)
  unfolding build_patch_for_revision text
  build_patch-text commit_message l ls e =
      let tail : String.◌++◌ (join "\n" (l ∷ ls))
            (String.◌++◌ "\n" (String.◌++◌ "\n" (String.◌++◌ diff "")))
          ≡ String.◌++◌ (text (map ended (l ∷ ls))) (String.◌++◌ "\n" diff) =
        ap (λ d. String.◌++◌ (join "\n" (l ∷ ls)) (String.◌++◌ "\n" (String.◌++◌ "\n" d)))
          (append-nil diff)
        ∙ sym (append_assoc (join "\n" (l ∷ ls)) "\n" (String.◌++◌ "\n" diff))
        ∙ ap (λ t. String.◌++◌ t (String.◌++◌ "\n" diff)) (text-ended l ls) in
      rw e (rw tail (simp append_assoc))

  pub build_patch-lines :
      (commit_message l : String) (ls : List String)
      → splitlines (strip commit_message) ≡ l ∷ ls
      → file_lines (build_patch_for_revision diff author_name author_email commit_message timestamp)
        ≡ map ended (patch_lines (diff_start (l ∷ ls)) (l ∷ ls)) ++ "\n" ∷ file_lines diff
  build_patch-lines commit_message l ls e =
      let k = diff_start (l ∷ ls) in
      let user_IsLine : IsLine user_line =
        IsLine-append "# User " _ (is_line-IsLine "# User " refl) (
          IsLine-append (no_line_breaks author_name) _ (no_line_breaks-IsLine author_name) (
            IsLine-append " <" _ (is_line-IsLine " <" refl) (
              IsLine-append (no_line_breaks author_email) ">" (no_line_breaks-IsLine author_email)
                (is_line-IsLine ">" refl)))) in
      let date_IsLine : IsLine date_line =
        IsLine-append "# Date " _ (is_line-IsLine "# Date " refl)
          (no_line_breaks-IsLine (text (timestamp ∷ " +0000" ∷ []))) in
      let start_IsLine : IsLine (start_line k) =
        IsLine-append "# Diff Start Line " _ (is_line-IsLine "# Diff Start Line " refl)
          (decimal-IsLine k) in
      let message : All IsLine (l ∷ ls) =
        subst (All IsLine) e (splitlines-IsLine (strip commit_message)) in
      ap file_lines (build_patch-text commit_message l ls e)
      ∙ file_lines-map (patch_lines k (l ∷ ls)) (String.◌++◌ "\n" diff) (
        is_line-IsLine "# HG changeset patch" refl,
        (user_IsLine, (date_IsLine, (start_IsLine, message))),
      )
      ∙ ap (λ r. map ended (patch_lines k (l ∷ ls)) ++ r)
          (ap file_lines (sym (nil-append (String.◌++◌ "\n" diff))) ∙ file_lines-line "" diff tt)

pub decimal_truthy : (k : ℕ) → is_truthy (decimal k) ≡ true
decimal_truthy k = let (c, s, e, h, ks) = decimal-IsDigit k in rw e refl

-- A line with the start of the diff sets that header.
pub start_value :
    (k : ℕ) (hs : Headers)
    → set_from_line header_names (ended (String.◌++◌ "# Diff Start Line " (decimal k))) hs
      ≡ (diff_start_line, decimal k) ∷ hs
unfolding set_from_line header_value lstrip is_space
start_value k hs =
    ap (λ t. set_from_line header_names t hs) (ended-onto "# Diff Start Line " (decimal k))
    ∙ ap (λ (v : String). if is_truthy v then (diff_start_line, v) ∷ hs else hs) (field_value k)
    ∙ rw (decimal_truthy k) refl

-- ===== src/Patch/Headers.antt =====
-- The headers of a patch that was built for a revision.
use lando_api.Common.{
  ◌≡◌, refl, ap, ◌∙◌, false, true, List, String, [], ◌∷◌, ◌++◌, map, ℕ, suc, arith,
}
use lando_api.Common.Text.{decimal}
use lando_api.Common.Search.{starts_with}
use lando_api.Patch.{
  file_lines, Headers, header_names, set_from_line, parse_header, diff_start_line,
}
use lando_api.Patch.Lines.{ended}
use lando_api.Patch.Reading.{
  onto, user_text, date_text, ended-onto, patch_lines, user_line, date_line, start_line,
  start_value,
}
use package.text.Mathlib.TextLemmas.{cons-append}
use Prim.Native.String
use lando_api.Patch.Build.{diff_start}

-- A line that begins like a header does so with its line feed.
pub starts_with-ended :
    (l : String) → starts_with "# " l ≡ false → starts_with "# " (ended l) ≡ false
unfolding starts_with
starts_with-ended String.[] h = refl
starts_with-ended (String.◌∷◌ c String.[]) h =
    ap (starts_with "# ") (cons-append c "" "\n") ∙ ground arith
starts_with-ended (String.◌∷◌ c (String.◌∷◌ d l)) h =
    ap (starts_with "# ")
      (cons-append c (String.◌∷◌ d l) "\n" ∙ ap (String.◌∷◌ c) (cons-append d l "\n"))
    ∙ h

pub header_more :
    (line : String) (lines : List String) (count : ℕ) (hs : Headers)
    → starts_with "# " (ended line) ≡ true
    → parse_header (ended line ∷ lines) (count, hs)
      ≡ parse_header lines (suc count, set_from_line header_names (ended line) hs)
unfolding parse_header
header_more line lines count hs h = rw h refl

pub header_end :
    (line : String) (lines : List String) (count : ℕ) (hs : Headers)
    → starts_with "# " (ended line) ≡ false
    → parse_header (ended line ∷ lines) (count, hs) ≡ (count, hs)
unfolding parse_header
header_end line lines count hs h = rw h refl

-- A text with a literal in front that begins like a header.
pub begins :
    (s r : String)
    → starts_with "# " (onto s (ended r)) ≡ true
    → starts_with "# " (ended (String.◌++◌ s r)) ≡ true
begins s r h = ap (starts_with "# ") (ended-onto s r) ∙ h

module _ (diff author_name author_email timestamp l : String) (ls : List String) where
  abbrev pub last_start : ℕ
  last_start = diff_start (l ∷ ls)

  -- The headers of the patch itself.
  abbrev pub first_headers : Headers
  first_headers =
      (diff_start_line, decimal last_start)
      ∷ set_from_line header_names (ended (date_line diff author_name author_email timestamp)) (
          set_from_line header_names (ended (user_line diff author_name author_email timestamp))
            (set_from_line header_names (ended "# HG changeset patch") []))

  abbrev pub all_lines : List String
  all_lines =
      map ended (patch_lines diff author_name author_email timestamp last_start (l ∷ ls))
      ++ "\n" ∷ file_lines diff

  -- The loop of the headers reaches the message.
  pub parse_header-headers :
      parse_header all_lines (0, [])
      ≡ parse_header (map ended (l ∷ ls) ++ "\n" ∷ file_lines diff) (4, first_headers)
  unfolding starts_with
  parse_header-headers =
      header_more "# HG changeset patch" _ 0 [] refl
      ∙ header_more (user_line diff author_name author_email timestamp) _ 1 _
          (begins "# User " (user_text diff author_name author_email timestamp) refl)
      ∙ header_more (date_line diff author_name author_email timestamp) _ 2 _
          (begins "# Date " (date_text diff author_name author_email timestamp) refl)
      ∙ header_more (start_line diff author_name author_email timestamp last_start) _ 3 _
          (begins "# Diff Start Line " (decimal last_start) refl)
      ∙ ap (λ hs. parse_header (map ended (l ∷ ls) ++ "\n" ∷ file_lines diff) (4, hs))
          (start_value last_start _)

-- ===== src/Patch/Build.antt =====
-- `build_patch_for_revision` of landoapi/hgexports.py.
use lando_api.Common.{length, String, List, ℕ, ◌+◌, [], ◌∷◌}
use lando_api.Common.Text.{join, text, splitlines, decimal}
use lando_api.Common.Search.{strip}

unfoldable pub no_line_breaks : String → String
no_line_breaks s = text (splitlines (strip s))

-- `_HG_EXPORT_HEADER` has four lines.
unfoldable pub diff_start : (message_lines : List String) → ℕ
diff_start message_lines = length message_lines + 4 + 1

unfoldable pub build_patch_for_revision :
    (diff author_name author_email commit_message timestamp : String) → String
build_patch_for_revision diff author_name author_email commit_message timestamp =
    let message_lines = splitlines (strip commit_message) in
    text (
      "# HG changeset patch"
      ∷ "\n"
      ∷ "# User "
      ∷ no_line_breaks author_name
      ∷ " <"
      ∷ no_line_breaks author_email
      ∷ ">"
      ∷ "\n"
      ∷ "# Date "
      ∷ no_line_breaks (text (timestamp ∷ " +0000" ∷ []))
      ∷ "\n"
      ∷ "# Diff Start Line "
      ∷ decimal (diff_start message_lines)
      ∷ "\n"
      ∷ join "\n" message_lines
      ∷ "\n"
      ∷ "\n"
      ∷ diff
      ∷ [])

-- ===== src/Patch/Examples.antt =====
-- A message with a line that begins a diff.
use lando_api.Common.{◌≡◌, refl, [], ◌∷◌, map}
use lando_api.Common.Text.{text, splitlines}
use lando_api.Common.Search.{strip}
use lando_api.Common.Exec.{returned}
use lando_api.Patch.{HgPatchHelper, hg_patch_helper, get_diff}
use lando_api.Patch.Lines.{ended}
use lando_api.Patch.Injection.{get_diff-injected}
use Prim.Native.String
use lando_api.Patch.Build.{build_patch_for_revision}

get_diff-injected_example :
    (h : HgPatchHelper) × (hg_patch_helper (
        build_patch_for_revision "diff --git c d" "Ann" "a@b.c"
          "# Diff Start Line x r=ann\n\ndiff --git a b\n-1" "0")
      ≡ returned h)
    × (get_diff h
        ≡ String.◌++◌
            (text (map ended ("diff --git a b" ∷ "-1" ∷ [])))
            (String.◌++◌ "\n" "diff --git c d"))
unfolding splitlines strip
get_diff-injected_example =
    get_diff-injected "diff --git c d" "Ann" "a@b.c"
      "# Diff Start Line x r=ann\n\ndiff --git a b\n-1" "0" " r=ann" ("-1" ∷ []) refl

-- ===== src/Patch/RoundTrip.antt =====
-- A patch that is built for a revision is read back.
use lando_api.Common.{◌≡◌, false, List, String, ◌∷◌, some}
use lando_api.Common.Search.{starts_with}
use lando_api.Common.Int.{pos}
use lando_api.Patch.{HgPatchHelper}
use Prim.Native.String
use lando_api.Patch.Headers.{first_headers, all_lines}
use lando_api.Patch.Build.{diff_start}

module _ (diff author_name author_email timestamp l : String) (ls : List String)
    (plain : starts_with "# " l ≡ false) where
  abbrev helper : HgPatchHelper
  helper = record {
    lines = all_lines diff author_name author_email timestamp l ls;
    headers = first_headers diff author_name author_email timestamp l ls;
    header_end_line_no = 4;
    diff_start_line = some (pos (diff_start (l ∷ ls)));
  }

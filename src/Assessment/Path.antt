-- ===== src/Assessment/Path.antt =====
-- The landing path of a request, as `LandingAssessmentState.from_landing_path` and
-- `convert_path_id_to_phid` of landoapi/transplants.py read it.
pub mod Converted
mod Examples
use lando_api.Common.{
  nat_eq, ◌==◌, map, if◌then◌else◌, List, String, Option, ℕ, none, some, [], ◌∷◌,
}
use lando_api.Common.Exec.{◌>>>◌, key_error, raised, returned, Outcome}
use lando_api.Common.Text.{decimal}
use lando_api.Assessment.State.{
  find_diff, find_revision, or_key_error, LandingAssessment, PhabDiff, PhabRevision,
}
use lando_api.Common.Int.{ℤ}

-- `mapping`: of two revisions with one id, the later stands.
unfoldable pub phid_of : ℕ → List PhabRevision → Option String
phid_of id [] = none
phid_of id (r ∷ revisions) =
    let first = if r.id == id then some r.phid else none in
    elim (phid_of id revisions) [ some later ↦ some later | none ↦ first ]

-- An id that no revision has raises a KeyError, which the handler of IndexError does not catch.
unfoldable pub convert_path_id_to_phid :
    List PhabRevision → (landing_path : List (ℕ × ℤ)) → Outcome (List (String × ℤ))
convert_path_id_to_phid revisions [] = returned []
convert_path_id_to_phid revisions ((revision_id, diff_id) ∷ path) =
    or_key_error (decimal revision_id) (phid_of revision_id revisions) >>> λ phid.
    convert_path_id_to_phid revisions path >>> λ mapped. returned ((phid, diff_id) ∷ mapped)

revisions_of : List PhabRevision → List (String × ℤ) → Outcome (List PhabRevision)
revisions_of revisions [] = returned []
revisions_of revisions ((phid, diff_id) ∷ path) =
    or_key_error phid (find_revision phid revisions) >>> λ r.
    revisions_of revisions path >>> λ rs. returned (r ∷ rs)

with_diffs : List PhabDiff → List PhabRevision → Outcome (List (PhabRevision × PhabDiff))
with_diffs diffs [] = returned []
with_diffs diffs (r ∷ revisions) =
    or_key_error r.diff_phid (find_diff r.diff_phid diffs) >>> λ diff.
    with_diffs diffs revisions >>> λ pairs. returned ((r, diff) ∷ pairs)

unfoldable pub from_landing_path :
    List PhabRevision
    → List PhabDiff
    → (landing_path : List (ℕ × ℤ)) → (email : Option String) → (groups : List String)
    → Outcome LandingAssessment
unfolding revisions_of with_diffs
from_landing_path revisions diffs landing_path email groups =
    convert_path_id_to_phid revisions landing_path >>> λ path. revisions_of revisions path >>> λ rs.
    with_diffs diffs rs >>> λ pairs.
    returned
      (record { email = email; groups = groups; landing_path_by_phid = path; to_land = pairs })

-- ===== src/Assessment/Warnings/Examples.antt =====
-- One reviewer who accepted the diff.
use lando_api.Common.{List, some, [], ◌∷◌, All, refl}
use lando_api.Assessment.Reviews.{Reviewer, reviewer_accepted, calculate_review_extra_state}
use lando_api.Assessment.Warnings.{
  warning_blocking_reviews, warning_reviews_not_current, blocking_phids, blocking_text, extra_state,
}
use lando_api.Assessment.Warnings.Reviewed.{Some, AcceptedBy, NotBlockedBy, warning_reviews-none}

abbrev reviewers : List Reviewer
reviewers =
    record {
      phid = "PHID-USER-2";
      status = some reviewer_accepted;
      extra = some (record { reviewer_phid = "PHID-USER-2"; diff_phid = some "PHID-DIFF-1" });
    }
    ∷ []

warning_reviews-none_example :
    Some (AcceptedBy "PHID-DIFF-1") reviewers × All (NotBlockedBy "PHID-DIFF-1") reviewers
unfolding warning_blocking_reviews warning_reviews_not_current blocking_phids blocking_text
    extra_state calculate_review_extra_state
warning_reviews-none_example = warning_reviews-none "PHID-DIFF-1" reviewers [] [] refl refl

-- ===== src/Assessment/Warnings/Reviewed.antt =====
-- What the reviews of a revision say when there is no warning about them.
use lando_api.Common.Text.{text}
use lando_api.Common.{
  ==-refl, ◌≢◌, refl, ap, sym, ◌∙◌, ◌≡◌, ◌⊎◌, inl, inr, All, List, String, Option, none, some, [],
  ◌∷◌, true, false, option_eq, string_eq, ==-eq, ◌==◌, ◌&&◌, not, Bool-cases, if◌then◌else◌, map,
}
use lando_api.Common.Exec.{◌>>>◌, returned, raised, Outcome}
use lando_api.Assessment.Reviews.{
  Reviewer, ReviewerStatus, Identity, calculate_review_extra_state, has_accepted, reviewer_accepted,
  reviewer_rejected, reviewer_blocking, reviewer_added, reviewer_resigned, reviewer_unexpected,
  reviewer_identity, ExtraRow,
}
use lando_api.Assessment.Warnings.{
  extra_state, review_of, blocking_phids, blocking_text, warning_blocking_reviews,
  warning_reviews_not_current,
}

-- The reviewer accepted this very diff.
abbrev pub AcceptedBy : String → Reviewer → Type 0
AcceptedBy diff_phid r =
    (row : ExtraRow) × (r.extra ≡ some row)
    × (r.status ≡ some reviewer_accepted)
    × (row.diff_phid ≡ some diff_phid)

-- The reviewer has a status and a row of the attachment `reviewers-extra`, is not a blocking reviewer,
-- and has not rejected this diff.
abbrev pub NotBlockedBy : String → Reviewer → Type 0
NotBlockedBy diff_phid r =
    (status : ReviewerStatus) × (row : ExtraRow) × (r.status ≡ some status)
    × (r.extra ≡ some row)
    × (status ≢ reviewer_blocking)
    × (status ≡ reviewer_rejected → row.diff_phid ≢ some diff_phid)

-- One of the elements.
abbrev pub Some : {A : Type 0} → (A → Type 0) → List A → Type 0
Some P [] = ⊥
Some P (x ∷ xs) = P x ⊎ Some P xs

not_blocking :
    (diff_phid : String) (status : ReviewerStatus) (d : Option String)
    → (calculate_review_extra_state diff_phid status d).blocking_landing ≡ false
    → (status ≢ reviewer_blocking) × (status ≡ reviewer_rejected → d ≢ some diff_phid)
unfolding calculate_review_extra_state
not_blocking diff_phid reviewer_blocking d e = absurd (cc)
not_blocking diff_phid reviewer_rejected d e = (
  (λ h. cc),
  (λ _ h.
      let same : (some diff_phid == d) ≡ true = rw h (==-refl (some diff_phid)) in
      let e' : true ≡ false = rw same at e in cc),
)
not_blocking diff_phid reviewer_accepted d e = ((λ h. cc), (λ h. absurd (cc)))
not_blocking diff_phid reviewer_added d e = ((λ h. cc), (λ h. absurd (cc)))
not_blocking diff_phid reviewer_resigned d e = ((λ h. cc), (λ h. absurd (cc)))
not_blocking diff_phid reviewer_unexpected d e = ((λ h. cc), (λ h. absurd (cc)))

blocking_phids-empty :
    (diff_phid : String) (rs : List Reviewer)
    → blocking_phids diff_phid rs ≡ returned []
    → All (NotBlockedBy diff_phid) rs
unfolding blocking_phids extra_state
blocking_phids-empty diff_phid [] e = tt
blocking_phids-empty diff_phid (r ∷ rs) e =
    checked (λ q. blocking_phids-empty diff_phid rs q) r.status refl r.extra refl
      (blocking_phids diff_phid rs) refl e
  where
    checked :
        (blocking_phids diff_phid rs ≡ returned [] → All (NotBlockedBy diff_phid) rs)
        → (status : Option ReviewerStatus) → r.status ≡ status
        → (extra : Option ExtraRow) → r.extra ≡ extra
        → (o : Outcome (List String)) → blocking_phids diff_phid rs ≡ o
        → (review_of diff_phid status extra >>> λ state.
            o >>> λ phids. returned (if state.1.blocking_landing then r.phid ∷ phids else phids))
          ≡ returned []
        → All (NotBlockedBy diff_phid) (r ∷ rs)
    checked ih none s extra x o q h = absurd (cc)
    checked ih (some status) s none x o q h = absurd (cc)
    checked ih (some status) s (some row) x (raised e) q h = absurd (cc)
    checked ih (some status) s (some row) x (returned phids) q h =
        elim (Bool-cases
          (calculate_review_extra_state diff_phid status row.diff_phid).blocking_landing) [
            | inl t ↦ let h' : returned (r.phid ∷ phids) ≡ returned [] = rw t at h in absurd (cc)
            | inr f ↦
                let h' : returned phids ≡ returned [] = rw f at h in
                let (b, d) = not_blocking diff_phid status row.diff_phid f in
                ((status, row, s, x, b, d), ih (q ∙ h'))
          ]

accepted_current :
    (diff_phid : String) (status : ReviewerStatus) (d : Option String)
    → (has_accepted status && not (calculate_review_extra_state diff_phid status d).for_other_diff)
      ≡ true
    → (status ≡ reviewer_accepted) × (d ≡ some diff_phid)
unfolding calculate_review_extra_state
accepted_current diff_phid reviewer_accepted d e = elim (Bool-cases (some diff_phid == d)) [
  | inl t ↦ (refl, sym (==-eq (some diff_phid) d t))
  | inr f ↦ let e' : false ≡ true = rw f at e in absurd (cc)
]
accepted_current diff_phid reviewer_added d e = cc
accepted_current diff_phid reviewer_blocking d e = cc
accepted_current diff_phid reviewer_rejected d e = cc
accepted_current diff_phid reviewer_resigned d e = cc
accepted_current diff_phid reviewer_unexpected d e = cc

reviews_not_current-none :
    (diff_phid : String) (rs : List Reviewer)
    → warning_reviews_not_current diff_phid rs ≡ returned none
    → Some (AcceptedBy diff_phid) rs
unfolding warning_reviews_not_current extra_state
reviews_not_current-none diff_phid [] e = absurd (cc)
reviews_not_current-none diff_phid (r ∷ rs) e =
    checked (λ q. reviews_not_current-none diff_phid rs q) r.status refl r.extra refl e
  where
    checked :
        (warning_reviews_not_current diff_phid rs ≡ returned none → Some (AcceptedBy diff_phid) rs)
        → (status : Option ReviewerStatus) → r.status ≡ status
        → (extra : Option ExtraRow) → r.extra ≡ extra
        → (review_of diff_phid status extra >>> λ state.
            if has_accepted state.0 && not state.1.for_other_diff
            then returned none
            else warning_reviews_not_current diff_phid rs)
          ≡ returned none
        → Some (AcceptedBy diff_phid) (r ∷ rs)
    checked ih none s extra x h = absurd (cc)
    checked ih (some status) s none x h = absurd (cc)
    checked ih (some status) s (some row) x h =
        elim (Bool-cases (
          has_accepted status
          && not (calculate_review_extra_state diff_phid status row.diff_phid).for_other_diff)) [
            | inl t ↦
                let (a, d) = accepted_current diff_phid status row.diff_phid t in
                inl (row, x, s ∙ ap some a, d)
            | inr f ↦ inr (ih (rw f at h))
          ]

blocking_text-none : (names : List String) → blocking_text names ≡ none → names ≡ []
unfolding blocking_text
blocking_text-none [] e = refl
blocking_text-none (n ∷ []) e = absurd (cc)
blocking_text-none (n ∷ m ∷ names) e = absurd (cc)

map-empty : {A B : Type 0} (f : A → B) (xs : List A) → map f xs ≡ [] → xs ≡ []
map-empty f [] e = refl
map-empty f (x ∷ xs) e = absurd (cc)

-- If the two warnings are computed and there is neither the one about blocking reviews nor the one
-- about the current diff, then a reviewer has accepted this very diff, and every reviewer has a status
-- and a row of the attachment `reviewers-extra`, is not a blocking reviewer, and has not rejected this
-- diff.
pub warning_reviews-none :
    (diff_phid : String) (rs : List Reviewer) (users projects : List (String × Identity))
    → warning_blocking_reviews diff_phid rs users projects ≡ returned none
    → warning_reviews_not_current diff_phid rs ≡ returned none
    → Some (AcceptedBy diff_phid) rs × All (NotBlockedBy diff_phid) rs
unfolding warning_blocking_reviews
warning_reviews-none diff_phid rs users projects e f =
    (reviews_not_current-none diff_phid rs f, quiet (blocking_phids diff_phid rs) refl e)
  where
    quiet :
        (o : Outcome (List String))
        → blocking_phids diff_phid rs ≡ o
        → (o >>> λ phids. returned (
            blocking_text
              (map (λ p. text ("@" ∷ (reviewer_identity p users projects).identifier ∷ [])) phids)))
          ≡ returned none
        → All (NotBlockedBy diff_phid) rs
    quiet (raised x) q h = absurd (cc)
    quiet (returned phids) q h =
        let h' : blocking_text
              (map (λ p. text ("@" ∷ (reviewer_identity p users projects).identifier ∷ [])) phids)
            ≡ none =
          cc in
        blocking_phids-empty diff_phid rs
          (q ∙ ap returned (map-empty _ phids (blocking_text-none _ h')))

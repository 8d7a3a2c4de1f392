-- ===== src/Submission/Prepare/Built.antt =====
-- The rows of the revisions whose patches were built.
use lando_api.Common.{sym, subst, [], ◌∷◌, ◌≡◌, ◌≢◌, map, All, ℕ, List}
use lando_api.Submission.Prepare.{
  prepare_revisions, approving_ids, commit_message_of, Plan, prepare_revision, set_patch,
  save_revision,
}
use lando_api.Submission.Assess.{Services}
use lando_api.Common.Exec.{Outcome}
use lando_api.Submission.Tables.{JobTables}
use lando_api.Assessment.State.{PhabDiff, PhabRevision}
use lando_api.Submission.Tables.Rows.{IsSound}
use lando_api.Submission.Tables.Shown.{HasRows, Distinct, HasRow}
use lando_api.Assessment.Blockers.{select_diff_author}
use lando_api.Submission.Prepare.Saved.{
  set_patch-Saves, Saves, save_revision-Saves, OnReturn, continue-case, Stays,
}

-- The ids of the revisions and of the diffs.
abbrev pub pairs_of : List (PhabRevision × PhabDiff) → List (ℕ × ℕ)
pairs_of to_land = map (λ p. (p.0.id, p.1.id)) to_land

module _ {G : Type 0} (services : Services G) where
  abbrev Prepares : PhabRevision × PhabDiff → JobTables → Outcome (ℕ × List ℕ) × JobTables → Type 0
  Prepares p s out =
      IsSound out.1
      × Stays (p.0.id ∷ []) s out.1
      × OnReturn (λ made. HasRow out.1.revisions made.0 p.0.id p.1.id) out.0

  prepare_revision-Prepares :
      (plan : Plan) (p : PhabRevision × PhabDiff) (s : JobTables)
      → IsSound s
      → Prepares p s (prepare_revision services plan p s)
  unfolding prepare_revision
  prepare_revision-Prepares plan (revision, diff) s h =
      let R = Prepares (revision, diff) s in
      continue-case R (commit_message_of services plan revision) _ s
        (λ e. (h, (λ k a b n x. x), tt))
        λ message m.
          let (key, e, saved) = save_revision-Saves revision.id diff.id s h in
          continue-case R (save_revision revision.id diff.id s).0 _
            (save_revision revision.id diff.id s).1 (λ x. (saved.0, saved.1, tt))
            λ key' e'.
              let same : key' ≡ key = cc in
              let saved' =
                subst (λ k. Saves revision.id diff.id s k (save_revision revision.id diff.id s).1)
                  (sym same) saved in
              let u = (save_revision revision.id diff.id s).1 in
              continue-case R (approving_ids services revision) _ u (λ x. (saved.0, saved.1, tt))
                λ approved m'.
                  continue-case R (services.raw_diff diff.id) _ u (λ x. (saved.0, saved.1, tt))
                    λ raw m''.
                      let patched =
                        set_patch-Saves key' raw (select_diff_author diff) message services.now
                          revision.id diff.id s u saved' in
                      continue-case R
                        (set_patch key' raw (select_diff_author diff) message services.now u).0 _
                        (set_patch key' raw (select_diff_author diff) message services.now u).1
                        (λ x. (patched.0, patched.1, tt)) λ x y. patched

  -- Of a list, every row is there if all patches are built.
  abbrev pub Builds :
      List (PhabRevision × PhabDiff) → JobTables → Outcome (List (ℕ × List ℕ)) × JobTables → Type 0
  Builds to_land s out =
      IsSound out.1
      × Stays (map (λ p. p.0.id) to_land) s out.1
      × OnReturn (λ made. HasRows out.1.revisions (map (λ m. m.0) made) (pairs_of to_land)) out.0

  apart :
      (i : ℕ) (to_land : List (PhabRevision × PhabDiff))
      → All (λ q. q.0 ≢ i) (pairs_of to_land)
      → All (λ j. i ≢ j) (map (λ q. q.0.id) to_land)
  apart i [] h = tt
  apart i (p ∷ to_land) h = ((λ e. h.0 (sym e)), apart i to_land h.1)

  -- The built patches are those of the pairs, and an id of a pair comes once.
  pub prepare_revisions-Builds :
      (plan : Plan) (to_land : List (PhabRevision × PhabDiff)) (s : JobTables)
      → IsSound s
      → Distinct (pairs_of to_land)
      → Builds to_land s (prepare_revisions services plan to_land s)
  unfolding prepare_revisions
  prepare_revisions-Builds plan [] s h d = (h, (λ k a b n x. x), tt)
  prepare_revisions-Builds plan (p ∷ to_land) s h d =
      let R = Builds (p ∷ to_land) s in
      let out = prepare_revision services plan p s in
      let (sound, stays, has) = prepare_revision-Prepares plan p s h in
      continue-case R out.0 _ out.1 (λ e. (sound, (λ k a b n x. stays k a b (n.0, tt) x), tt))
        λ first m.
          let rest = prepare_revisions services plan to_land out.1 in
          let (sound', stays', all) = prepare_revisions-Builds plan to_land out.1 sound d.1 in
          let both =
            λ (k a b : ℕ) (n : All (λ i. a ≢ i) (map (λ q. q.0.id) (p ∷ to_land)))
                (x : HasRow s.revisions k a b).
              stays' k a b n.1 (stays k a b (n.0, tt) x) in
          let had : HasRow out.1.revisions first.0 p.0.id p.1.id =
            subst (OnReturn (λ made. HasRow out.1.revisions made.0 p.0.id p.1.id)) m has in
          let others = apart p.0.id to_land d.0 in
          continue-case R rest.0 _ rest.1 (λ e. (sound', both, tt))
            λ made m'. (
              sound',
              both,
              (
                stays' first.0 p.0.id p.1.id others had,
                subst
                    (OnReturn (λ l. HasRows rest.1.revisions (map (λ q. q.0) l) (pairs_of to_land)))
                    m' all,
              ),
            )

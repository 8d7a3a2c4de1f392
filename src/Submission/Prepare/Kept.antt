-- ===== src/Submission/Prepare/Kept.antt =====
-- The building of the patches leaves the jobs and their associations alone.
use lando_api.Submission.Prepare.{
  approving_ids, commit_message_of, author_of, Plan, prepare_revision, prepare_revisions, set_patch,
  save_revision,
}
use lando_api.Submission.Tables.{get_from_revision_id, JobTables}
use lando_api.Common.Exec.{raised, returned, continue, Exec, Outcome}
use lando_api.Common.{none, some, Option, refl, [], ◌∷◌, String, ◌≡◌, ◌∙◌, List, ℕ}
use lando_api.Submission.Assess.{Services}
use lando_api.Landing.Revision.{Revision}
use lando_api.Assessment.State.{PhabDiff, PhabRevision}
use lando_api.Assessment.Blockers.{select_diff_author}

-- The tables of jobs and of associations are as they were.
abbrev pub Keeps : JobTables → JobTables → Type 0
Keeps s t = (t.jobs ≡ s.jobs) × (t.associations ≡ s.associations) × (t.next_job ≡ s.next_job)

pub Keeps-trans : (s t u : JobTables) → Keeps s t → Keeps t u → Keeps s u
Keeps-trans s t u h k = (k.0 ∙ h.0, k.1 ∙ h.1, k.2 ∙ h.2)

pub continue-Keeps :
    {A B : Type 0} (r : Outcome A) (f : A → Exec JobTables B) (s t : JobTables)
    → Keeps s t
    → ((a : A) (u : JobTables) → Keeps u (f a u).1)
    → Keeps s (continue r f t).1
continue-Keeps (returned a) f s t h k = Keeps-trans s t (f a t).1 h (k a t)
continue-Keeps (raised e) f s t h k = h

save_revision-Keeps :
    (revision_id diff_id : ℕ) (s : JobTables) → Keeps s (save_revision revision_id diff_id s).1
unfolding save_revision
save_revision-Keeps revision_id diff_id s =
    found (get_from_revision_id revision_id s.revisions) refl
  where
    found :
        (o : Option Revision)
        → get_from_revision_id revision_id s.revisions ≡ o
        → Keeps s (save_revision revision_id diff_id s).1
    found none e = rw (e, save_revision) (refl, refl, refl)
    found (some row) e = rw (e, save_revision) (refl, refl, refl)

set_patch-Keeps :
    (key : ℕ) (raw : String) (author : Option String × Option String) (message : String) (now : ℕ)
    (s : JobTables)
    → Keeps s (set_patch key raw author message now s).1
unfolding set_patch author_of
set_patch-Keeps key raw (none, email) message now s = (refl, refl, refl)
set_patch-Keeps key raw (some name, none) message now s = (refl, refl, refl)
set_patch-Keeps key raw (some name, some email) message now s = (refl, refl, refl)

module _ {G : Type 0} (services : Services G) where
  prepare_revision-Keeps :
      (plan : Plan) (p : PhabRevision × PhabDiff) (s : JobTables)
      → Keeps s (prepare_revision services plan p s).1
  unfolding prepare_revision
  prepare_revision-Keeps plan (revision, diff) s =
      continue-Keeps (commit_message_of services plan revision) _ s s (refl, refl, refl)
        λ message t.
          continue-Keeps (save_revision revision.id diff.id t).0 _ t
            (save_revision revision.id diff.id t).1 (save_revision-Keeps revision.id diff.id t)
            λ key u.
              continue-Keeps (approving_ids services revision) _ u u (refl, refl, refl)
                λ approved v.
                  continue-Keeps (services.raw_diff diff.id) _ v v (refl, refl, refl)
                    λ raw w.
                      continue-Keeps
                        (set_patch key raw (select_diff_author diff) message services.now w).0 _ w
                        (set_patch key raw (select_diff_author diff) message services.now w).1
                        (set_patch-Keeps key raw (select_diff_author diff) message services.now w)
                        λ u x. (refl, refl, refl)

  pub prepare_revisions-Keeps :
      (plan : Plan) (to_land : List (PhabRevision × PhabDiff)) (s : JobTables)
      → Keeps s (prepare_revisions services plan to_land s).1
  unfolding prepare_revisions
  prepare_revisions-Keeps plan [] s = (refl, refl, refl)
  prepare_revisions-Keeps plan (p ∷ to_land) s =
      continue-Keeps (prepare_revision services plan p s).0 _ s
        (prepare_revision services plan p s).1 (prepare_revision-Keeps plan p s)
        λ first t.
          continue-Keeps (prepare_revisions services plan to_land t).0 _ t
            (prepare_revisions services plan to_land t).1 (prepare_revisions-Keeps plan to_land t)
            λ rest u. (refl, refl, refl)

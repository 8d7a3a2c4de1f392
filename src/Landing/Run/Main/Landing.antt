-- ===== src/Landing/Run/Main/Landing.antt =====
-- The steps of `run_job` after the push, and what the whole run comes to.
use lando_api.Common.{
  is_empty, false, not, ◌&&◌, none, true, refl, some, sym, ◌∙◌, ap, ℕ, String, Bool, Option, List,
  ◌≡◌,
}
use lando_api.Common.Exec.{
  ◌>>=◌, lift, continue, attempt, when, operational_error, raised, returned, Outcome, Exec,
}
use lando_api.Landing.Run.{set_landed_reviewers, on_session, change_job, on_checkout, Work}
use lando_api.Landing.Interface.{HgRepo, Services}
use lando_api.Landing.Run.Verdict.{transition-land, after_landing, Escaped, IsSettled}
use lando_api.Landing.Job.{Session, landed}
use lando_api.Common.Exec.Ends.{Ends-bind, Ends}
use lando_api.Landing.Run.Phases.Settling.{bug_notice-session}
use lando_api.Landing.Run.Main.{
  Landed, phab_trigger_repo_update, set_reviewers, use_directory, queued, after_push, update_bugs,
  queue_update, report_bugs, try_update_bugs,
}
use lando_api.Landing.Repo.{phab_identifier, Repo}
use lando_api.Common.Text.{is_truthy}

module _ {W : Type 0} (w₀ : Work W) (services : Services W) where
  -- The job has landed, whatever else happens.
  abbrev HasLanded : {A : Type 0} → Outcome A × Work W → Type 0
  HasLanded r = Ends (λ _ w'. IsSettled landed w') (Escaped w₀) r

  landed_again : (w w' : Work W) → IsSettled landed w → w'.session ≡ w.session → IsSettled landed w'
  landed_again w w' s e = record {
    status_set = ap (λ (t : Session). t.job.status) e ∙ s.status_set;
    committed = ap (λ (t : Session). t.row) e ∙ s.committed ∙ ap (λ (t : Session). t.job) (sym e);
  }

  ends_landed : {A : Type 0} (r : Outcome A) (w : Work W) → IsSettled landed w → HasLanded (r, w)
  ends_landed (returned a) w s = s
  ends_landed (raised e) w s = after_landing s

  use_directory-HasLanded :
      (found : Option (Outcome (List ℕ))) (w : Work W)
      → IsSettled landed w
      → HasLanded (use_directory services found w)
  unfolding use_directory change_job on_session set_landed_reviewers
  use_directory-HasLanded none w s = s
  use_directory-HasLanded (some (raised e)) w s = s
  use_directory-HasLanded (some (returned directory)) w s = record {
    status_set = s.status_set;
    committed = refl;
  }

  -- What leaves the session alone leaves a landed job landed.
  keeps_session :
      (m : Exec (Work W) Unit) (w : Work W)
      → (m w).1.session ≡ w.session
      → IsSettled landed w
      → HasLanded (m w)
  keeps_session m w e s = ends_landed (m w).0 (m w).1 (landed_again w (m w).1 s e)

  try_update_bugs-session :
      (repo : Repo) (hgrepo : HgRepo W) (bug_ids : List String) (w : Work W)
      → (try_update_bugs services repo hgrepo bug_ids w).1.session ≡ w.session
  unfolding try_update_bugs on_checkout
  try_update_bugs-session repo hgrepo bug_ids w =
      let (r, c) = hgrepo.read_checkout_file "config/milestone.txt" w.checkout in
      elim r
        as (λ q.
          (continue q
            (λ milestone. lift (
              services.update_bugs repo.short_name milestone repo.milestone_tracking_flag_template
                bug_ids))
            (record w { checkout = c })).1.session
          ≡ w.session) [ returned milestone ↦ refl | raised e ↦ refl ]

  report_bugs-session :
      (r : Outcome (Unit {0})) (w : Work W) → (report_bugs services r w).1.session ≡ w.session
  unfolding report_bugs
  report_bugs-session (returned _) w = refl
  report_bugs-session (raised e) w = bug_notice-session services w₀ e w

  keeps_when :
      (b : Bool) (m : Exec (Work W) Unit) (w : Work W)
      → (m w).1.session ≡ w.session
      → IsSettled landed w
      → HasLanded (when b m w)
  keeps_when true m w e s = keeps_session m w e s
  keeps_when false m w e s = s

  update_bugs-HasLanded :
      (repo : Repo) (hgrepo : HgRepo W) (bug_ids : List String) (w : Work W)
      → IsSettled landed w
      → HasLanded (update_bugs services repo hgrepo bug_ids w)
  unfolding update_bugs
  update_bugs-HasLanded repo hgrepo bug_ids w s =
      let (r, w') = try_update_bugs services repo hgrepo bug_ids w in
      keeps_when (repo.approval_required && not (is_empty bug_ids))
        (attempt (try_update_bugs services repo hgrepo bug_ids) >>= report_bugs services) w
        (report_bugs-session r w' ∙ try_update_bugs-session repo hgrepo bug_ids w) s

  queued-HasLanded :
      (identifier : String) (r : Outcome (Unit {0})) (w : Work W)
      → IsSettled landed w
      → HasLanded (queued services identifier r w)
  unfolding queued
  queued-HasLanded identifier (returned _) w s = record {
    status_set = s.status_set;
    committed = s.committed;
  }
  queued-HasLanded identifier (raised (operational_error m)) w s = s
  queued-HasLanded identifier (raised _) w s = after_landing s

  queue_update-HasLanded :
      (identifier : Option String) (w : Work W)
      → IsSettled landed w
      → HasLanded (queue_update services identifier w)
  unfolding queue_update
  queue_update-HasLanded none w s = s
  queue_update-HasLanded (some identifier) w s = chosen (is_truthy identifier)
    where
      chosen :
          (b : Bool)
          → HasLanded (
              when b
                (attempt (lift (services.enqueue_repo_update identifier))
                  >>= queued services identifier)
                w)
      chosen false = s
      chosen true = queued-HasLanded identifier (services.enqueue_repo_update identifier) w s

  pub after_push-Ends :
      (repo : Repo) (hgrepo : HgRepo W) (result : Landed) (w : Work W)
      → Ends
          (λ b w'. (b ≡ true) × IsSettled landed w')
          (Escaped w₀)
          (after_push services repo hgrepo result w)
  unfolding after_push set_reviewers phab_trigger_repo_update
  after_push-Ends repo hgrepo result w = rw (transition-land result.commit_id w) (
      bind (λ v. use_directory services (services.peers_and_owners v.checkout) v) _ _
        (use_directory-HasLanded (services.peers_and_owners w.checkout) _
          (record { status_set = refl; committed = refl }))
        λ _ w₁ s₁.
          bind (update_bugs services repo hgrepo result.bug_ids) _ w₁
            (update_bugs-HasLanded repo hgrepo result.bug_ids w₁ s₁)
            λ _ w₂ s₂.
              bind (queue_update services (phab_identifier repo)) _ w₂
                (queue_update-HasLanded (phab_identifier repo) w₂ s₂) (λ _ w₃ s₃. (refl, s₃)))
    where
      bind :
          (m : Exec (Work W) Unit) (f : Unit {0} → Exec (Work W) Bool) (v : Work W)
          → HasLanded (m v)
          → ((a : Unit {0}) (v' : Work W)
              → IsSettled landed v'
              → Ends (λ b w'. (b ≡ true) × IsSettled landed w') (Escaped w₀) (f a v'))
          → Ends (λ b w'. (b ≡ true) × IsSettled landed w') (Escaped w₀) ((m >>= f) v)
      bind m f v h k =
          Ends-bind (λ _ w'. IsSettled landed w') (λ b w'. (b ≡ true) × IsSettled landed w')
            (Escaped w₀) m f v h k

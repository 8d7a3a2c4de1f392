-- ===== src/Landing/Run/Phases/Settling.antt =====
-- The handlers of `run_job` that settle a job.
use lando_api.Common.{refl, ap, sym, subst, [], ◌∷◌, ◌++◌, String, ◌≡◌}
use lando_api.Common.Exec.{Outcome, Error, raised, modify, ◌>>◌, returned, ◌>>=◌, lift}
use lando_api.Landing.Run.{error_text, Work}
use lando_api.Landing.Interface.{bug_update_failure, landing_failure, Notice, Services}
use lando_api.Landing.Run.Phases.{
  notify_user_of_bug_update_failure, fail_and_notify, send, notify_user_of_landing_failure,
}
use lando_api.Landing.Run.Verdict.{Escaped, Told, after_failure, transition-fail, IsSettled}
use lando_api.Landing.Job.{landing_job_identifier, failed}
use lando_api.Common.Exec.Ends.{Ends-weaken, Ends}
use lando_api.Common.Text.{text}

module _ {W : Type 0} (services : Services W) (w₀ : Work W) where
  pub send-Ends :
      (notice : Notice) (w : Work W)
      → Ends
          (λ _ w'. w' ≡ record w { notices = w.notices ++ notice ∷ [] })
          (λ _ w'. w' ≡ w)
          (send services notice w)
  unfolding send
  send-Ends notice w =
      elim (services.send notice)
        as (λ r.
          Ends (λ _ w'. w' ≡ record w { notices = w.notices ++ notice ∷ [] }) (λ _ w'. w' ≡ w)
            ((lift r >> modify (λ (v : Work W). record v { notices = v.notices ++ notice ∷ [] }))
              w)) [ returned _ ↦ refl | raised e ↦ refl ]

  notify-Told :
      (w : Work W)
      → IsSettled failed w
      → w.notices ≡ w₀.notices
      → Ends (Told w₀) (Escaped w₀) (notify_user_of_landing_failure services w)
  unfolding notify_user_of_landing_failure
  notify-Told w s n =
      elim (landing_job_identifier w.session.job)
        as (λ r. Ends (Told w₀) (Escaped w₀) (
          (lift r >>= λ identifier. send services (
              landing_failure w.session.job.requester_email identifier w.session.job.error
                w.session.job.id))
            w)) [
              | returned identifier ↦
                  let notice =
                    landing_failure w.session.job.requester_email identifier w.session.job.error
                      w.session.job.id in
                  Ends-weaken (Told w₀) (Escaped w₀)
                    (λ _ w'. w' ≡ record w { notices = w.notices ++ notice ∷ [] }) (λ _ w'. w' ≡ w)
                    (send services notice w) (send-Ends notice w)
                    (λ _ w' e. subst (Told w₀ tt) (sym e) (
                      record { status_set = s.status_set; committed = s.committed },
                      record { identifier = identifier; told = ap (λ l. l ++ notice ∷ []) n },
                    ))
                    (λ _ w' e. after_failure (subst (IsSettled failed) (sym e) s))
              | raised e ↦ after_failure s
            ]

  pub fail_and_notify-Told :
      (message : String) (w : Work W)
      → w.notices ≡ w₀.notices
      → Ends (Told w₀) (Escaped w₀) (fail_and_notify services message w)
  unfolding fail_and_notify
  fail_and_notify-Told message w n =
      rw (transition-fail message w)
        (notify-Told _ (record { status_set = refl; committed = refl }) n)

  -- An e-mail changes the session in no way.
  pub bug_notice-session :
      (e : Error) (w : Work W)
      → (notify_user_of_bug_update_failure services e w).1.session ≡ w.session
  unfolding notify_user_of_bug_update_failure send
  bug_notice-session e w =
      elim (landing_job_identifier w.session.job)
        as (λ r.
          ((lift r >>= λ identifier. send services (
              bug_update_failure w.session.job.requester_email identifier
                (text (
                  "Failed to update Bugzilla after landing uplift revisions: "
                  ∷ error_text services.library_text e
                  ∷ []))
                w.session.job.id))
            w).1.session
          ≡ w.session) [ returned identifier ↦ sent _ (services.send _) w | raised x ↦ refl ]
    where
      sent :
          (notice : Notice) (r : Outcome (Unit {0})) (v : Work W)
          → ((lift r >> modify (λ (u : Work W). record u { notices = u.notices ++ notice ∷ [] }))
              v).1.session
            ≡ v.session
      sent notice (returned _) v = refl
      sent notice (raised x) v = refl

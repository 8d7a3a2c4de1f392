-- ===== src/Landing/Run/Main/Pushing.antt =====
-- The formatting, the push and the `with` block of `run_job`: each leaves the job open or settles it.
use lando_api.Common.{
  refl, [], none, ◌∷◌, some, length, inr, inl, Bool-cases, true, String, Bool, Option, List, ◌≡◌,
}
use lando_api.Common.Exec.{pure, ◌>>◌, autoformatting_exception, Error}
use lando_api.Landing.Run.{is_temporary, on_session, change_job, Work}
use lando_api.Landing.Interface.{HgRepo, Services}
use lando_api.Landing.Repo.{Repo}
use lando_api.Landing.Run.Main.{
  bookmark_of, run_formatters, note_replacements, on_format_failure, autoformat, on_push_failure,
  format_and_push, push, with_checkout,
}
use lando_api.Landing.Run.Verdict.{still_open, format_failed, Escaped, Told, IsOpen}
use lando_api.Landing.Revision.{Revision}
use lando_api.Landing.Run.Phases.Steps.{
  Steps-if, apply_patches-Steps, Steps-failed, Stops, pull-Steps, Steps-deferred, Steps-next,
  Steps-checkout, Steps-attempt, Steps,
}
use lando_api.Landing.Run.Phases.{fail_and_notify, apply_patches, go, pull}
use lando_api.Common.Exec.Ends.{Ends-bind}
use lando_api.Common.Text.{splitlines}
use lando_api.Landing.Run.Phases.Settling.{fail_and_notify-Told}

module _ {W : Type 0} (w₀ : Work W) (services : Services W) (repo : Repo) (hgrepo : HgRepo W) where
  abbrev fmt : Bool
  fmt = repo.autoformat_enabled

  on_format_failure-Steps :
      (e : Error) (w : Work W)
      → fmt ≡ true
      → IsOpen w₀ w
      → Steps fmt w₀ (on_format_failure services e w)
  unfolding on_format_failure
  on_format_failure-Steps (autoformatting_exception details) w on o =
      Ends-bind (Told w₀) (Stops fmt w₀) (Escaped w₀) (fail_and_notify services _) _ w
        (fail_and_notify-Told services w₀ _ w o.notices) (λ _ w' t. format_failed refl on t.0 t.1)
  on_format_failure-Steps _ w on o = still_open o

  note_replacements-IsOpen :
      (replacements : Option (List String)) (w : Work W)
      → IsOpen w₀ w
      → Steps fmt w₀ ((note_replacements services replacements >> pure (go tt)) w)
  unfolding note_replacements change_job on_session
  note_replacements-IsOpen none w o = o
  note_replacements-IsOpen (some []) w o = o
  note_replacements-IsOpen (some (r ∷ rest)) w o = record {
    status = o.status;
    attempts = o.attempts;
    notices = o.notices;
  }

  run_formatters-Steps :
      (titles bug_ids : List String) (w : Work W)
      → fmt ≡ true
      → IsOpen w₀ w
      → Steps fmt w₀ (run_formatters services hgrepo titles bug_ids w)
  unfolding run_formatters
  run_formatters-Steps titles bug_ids w on o =
      Steps-attempt fmt w₀ (hgrepo.format_stack (length titles) bug_ids)
        (λ replacements. note_replacements services replacements >> pure (go tt))
        (on_format_failure services) w o note_replacements-IsOpen
        (λ e w' o'. on_format_failure-Steps e w' on o')

  autoformat-Steps :
      (titles bug_ids : List String) (w : Work W)
      → IsOpen w₀ w
      → Steps fmt w₀ (autoformat services repo hgrepo titles bug_ids w)
  unfolding autoformat
  autoformat-Steps titles bug_ids w o =
      Steps-if fmt w₀ fmt (run_formatters services hgrepo titles bug_ids) (pure (go tt)) w
        (λ on. run_formatters-Steps titles bug_ids w on o) (λ _. o)

  on_push_failure-Steps :
      (e : Error) (w : Work W) → IsOpen w₀ w → Steps fmt w₀ (on_push_failure services repo e w)
  unfolding on_push_failure
  on_push_failure-Steps e w o = elim (Bool-cases (is_temporary e)) [
    | inl temporary ↦ rw temporary (Steps-deferred fmt w₀ services _ w o)
    | inr permanent ↦ rw permanent (Steps-failed fmt w₀ services _ w o)
  ]

  push-Steps : (w : Work W) → IsOpen w₀ w → Steps fmt w₀ (push services repo hgrepo w)
  unfolding push
  push-Steps w o =
      Steps-attempt fmt w₀ (hgrepo.push repo.push_path (bookmark_of services repo) repo.force_push)
        (λ _. pure (go tt)) (on_push_failure services repo) w o (λ _ w' o'. o')
        on_push_failure-Steps

  format_and_push-Steps :
      (w : Work W) → IsOpen w₀ w → Steps fmt w₀ (format_and_push services repo hgrepo w)
  unfolding format_and_push
  format_and_push-Steps w o = Steps-checkout fmt w₀ _ _ w o λ log w₁ o₁.
      Steps-next fmt w₀ (autoformat services repo hgrepo (splitlines log) _) _ w₁
        (autoformat-Steps (splitlines log) _ w₁ o₁)
        λ _ w₂ o₂. Steps-checkout fmt w₀ _ _ w₂ o₂ λ commit_id w₃ o₃.
          Steps-next fmt w₀ (push services repo hgrepo) _ w₃ (push-Steps w₃ o₃) λ _ w₄ o₄. o₄

  pub with_checkout-Steps :
      (revisions : List Revision) (w : Work W)
      → IsOpen w₀ w
      → Steps fmt w₀ (with_checkout services repo hgrepo revisions w)
  unfolding with_checkout
  with_checkout-Steps revisions w o =
      Steps-next fmt w₀ (pull services repo hgrepo) _ w (pull-Steps fmt w₀ services repo hgrepo w o)
        λ _ w₁ o₁.
          Steps-next fmt w₀ (apply_patches services repo hgrepo revisions) _ w₁
            (apply_patches-Steps fmt w₀ services repo hgrepo revisions w₁ o₁)
            λ _ w₂ o₂. format_and_push-Steps w₂ o₂

-- ===== src/Landing/Run/Phases/Steps.antt =====
-- The pull and the patches of `run_job`: each step leaves the job open or settles it.
use lando_api.Common.{
  if◌then◌else◌, ◌≡◌, [], ◌∷◌, ℕ, List, Option, refl, arith, inr, inl, ltb, Bool-cases, false, true,
  String, Bool,
}
use lando_api.Common.Exec.{
  no_diff_start_line, patch_conflict, raised, attempt, ◌>>=◌, returned, cinnabar_conversion_error,
  hgmo_internal_server_error, Error, ◌>>◌, pure, Outcome, Exec,
}
use lando_api.Landing.Run.{error_text, on_session, change_job, on_checkout, transition, Work}
use lando_api.Landing.Run.Phases.{
  pull, process_merge_conflict, on_patch_failure, apply_patches, failed_paths, go, fail_and_notify,
  ◌>=>◌, on_pull_failure, stop, Flow,
}
use lando_api.Landing.Interface.{HgRepo, Services}
use lando_api.Landing.Run.Verdict.{
  still_open, Escaped, Told, gave_up, transition-fail, job_failed, job_deferred, transition-defer,
  Verdict, IsOpen,
}
use lando_api.Common.Exec.Ends.{Ends-bind, Ends}
use lando_api.Landing.Repo.{Repo}
use lando_api.Landing.Run.Phases.Settling.{fail_and_notify-Told}
use lando_api.Landing.Job.{Breakdown, FailedPath, defer}
use lando_api.Landing.Revision.{Revision}
use lando_api.Common.Text.{without_last}

module _ {W : Type 0} (fmt : Bool) (w₀ : Work W) where
  -- A step settles the job, or leaves it open for the next step.
  abbrev pub Stops : {A : Type 0} → Flow A → Work W → Type 0
  Stops (stop b) w' = Verdict fmt w₀ w' b
  Stops (go a) w' = IsOpen w₀ w'

  abbrev pub Steps : {A : Type 0} → Outcome (Flow A) × Work W → Type 0
  Steps r = Ends Stops (Escaped w₀) r

  after_flow :
      {A B : Type 0} (r : Flow A) (f : A → Exec (Work W) (Flow B)) (w : Work W)
      → Stops r w
      → ((a : A) (w' : Work W) → IsOpen w₀ w' → Steps (f a w'))
      → Steps
          (let k : Exec (Work W) (Flow B) = elim r [ stop b ↦ pure (stop b) | go a ↦ f a ] in k w)
  after_flow (stop b) f w h k = h
  after_flow (go a) f w h k = k a w h

  pub Steps-next :
      {A B : Type 0} (m : Exec (Work W) (Flow A)) (f : A → Exec (Work W) (Flow B)) (w : Work W)
      → Steps (m w)
      → ((a : A) (w' : Work W) → IsOpen w₀ w' → Steps (f a w'))
      → Steps ((m >=> f) w)
  Steps-next m f w h k =
      Ends-bind Stops Stops (Escaped w₀) m _ w h (λ r w' q. after_flow r f w' q k)

  pub Steps-if :
      {A : Type 0} (b : Bool) (m n : Exec (Work W) (Flow A)) (w : Work W)
      → (b ≡ true → Steps (m w))
      → (b ≡ false → Steps (n w))
      → Steps ((if b then m else n) w)
  Steps-if true m n w km kn = km refl
  Steps-if false m n w km kn = kn refl

  module _ (services : Services W) where
    -- The end of a handler that fails the job and tells its user.
    pub Steps-failed :
        (message : String) (w : Work W)
        → IsOpen w₀ w
        → Steps (
            (fail_and_notify services message >> pure (let r : Flow (Unit {0}) = stop true in r)) w)
    Steps-failed message w o =
        Ends-bind (Told w₀) Stops (Escaped w₀) (fail_and_notify services message) _ w
          (fail_and_notify-Told services w₀ message w o.notices) (λ _ w' t. job_failed refl t.0 t.1)

    pub Steps-deferred :
        (message : String) (w : Work W)
        → IsOpen w₀ w
        → Steps (
            (transition defer "message" message >> pure (let r : Flow (Unit {0}) = stop false in r))
              w)
    Steps-deferred message w o =
        rw (transition-defer message w)
          (job_deferred refl (record { status_set = refl; committed = refl }) o.notices)

    on_pull_failure-Steps :
        (repo : Repo) (e : Error) (w : Work W)
        → IsOpen w₀ w
        → Steps (on_pull_failure services repo e w)
    unfolding on_pull_failure
    on_pull_failure-Steps repo (hgmo_internal_server_error m) w o = Steps-deferred _ w o
    on_pull_failure-Steps repo (cinnabar_conversion_error m) w o =
        elim (Bool-cases (ltb w.session.job.attempts 5)) [
          | inl retry ↦ rw retry (Steps-deferred m w o)
          | inr last ↦ rw last (
              rw (transition-fail m w) (
                gave_up refl (ground (arith, o.attempts))
                  (record { status_set = refl; committed = refl }) o.notices))
        ]
    on_pull_failure-Steps repo _ w o = Steps-failed _ w o

  -- The checkout alone may change while the job is open.
  pub IsOpen-checkout : (c : W) (w : Work W) → IsOpen w₀ w → IsOpen w₀ (record w { checkout = c })
  IsOpen-checkout c w o = record { status = o.status; attempts = o.attempts; notices = o.notices }

  abbrev pub StaysOpen : {A : Type 0} → A → Work W → Type 0
  StaysOpen _ w' = IsOpen w₀ w'

  Ends-open :
      {A : Type 0} (r : Outcome A) (w : Work W) → IsOpen w₀ w → Ends StaysOpen (Escaped w₀) (r, w)
  Ends-open (returned a) w o = o
  Ends-open (raised e) w o = still_open o

  pub on_checkout-StaysOpen :
      {A : Type 0} (m : Exec W A) (w : Work W)
      → IsOpen w₀ w
      → Ends StaysOpen (Escaped w₀) (on_checkout m w)
  unfolding on_checkout
  on_checkout-StaysOpen m w o = Ends-open (m w.checkout).0 _ (IsOpen-checkout (m w.checkout).1 w o)

  caught :
      {A B : Type 0} (r : Outcome A) (f : A → Exec (Work W) (Flow B))
      (g : Error → Exec (Work W) (Flow B)) (w : Work W)
      → ((a : A) → Steps (f a w))
      → ((e : Error) → Steps (g e w))
      → Steps ((pure r >>= λ q. elim q [ returned a ↦ f a | raised e ↦ g e ]) w)
  caught (returned a) f g w kf kg = kf a
  caught (raised e) f g w kf kg = kg e

  -- A call of the checkout whose exceptions are caught.
  pub Steps-attempt :
      {A B : Type 0} (m : Exec W A) (f : A → Exec (Work W) (Flow B))
      (g : Error → Exec (Work W) (Flow B)) (w : Work W)
      → IsOpen w₀ w
      → ((a : A) (w' : Work W) → IsOpen w₀ w' → Steps (f a w'))
      → ((e : Error) (w' : Work W) → IsOpen w₀ w' → Steps (g e w'))
      → Steps ((attempt (on_checkout m) >>= λ q. elim q [ returned a ↦ f a | raised e ↦ g e ]) w)
  unfolding on_checkout
  Steps-attempt m f g w o kf kg =
      let (r, c) = m w.checkout in
      let o' = IsOpen-checkout c w o in
      caught r f g (record w { checkout = c }) (λ a. kf a _ o') (λ e. kg e _ o')

  -- A call of the checkout whose exceptions leave the run.
  pub Steps-checkout :
      {A B : Type 0} (m : Exec W A) (f : A → Exec (Work W) (Flow B)) (w : Work W)
      → IsOpen w₀ w
      → ((a : A) (w' : Work W) → IsOpen w₀ w' → Steps (f a w'))
      → Steps ((on_checkout m >>= f) w)
  Steps-checkout {A} m f w o k =
      Ends-bind {A = A} StaysOpen Stops (Escaped w₀) (on_checkout m) f w
        (on_checkout-StaysOpen m w o) k

  module _ (services : Services W) where
    failed_paths-StaysOpen :
        (repo : Repo) (hgrepo : HgRepo W) (rejects : List String) (w : Work W)
        → IsOpen w₀ w
        → Ends StaysOpen (Escaped w₀) (failed_paths services repo hgrepo rejects w)
    unfolding failed_paths
    failed_paths-StaysOpen repo hgrepo [] w o = o
    failed_paths-StaysOpen repo hgrepo (reject ∷ rest) w o =
        Ends-bind {A = String} StaysOpen StaysOpen (Escaped w₀)
          (on_checkout (
            hgrepo.run_hg (
              "log"
              ∷ "--cwd"
              ∷ hgrepo.path
              ∷ "--template"
              ∷ "{node}"
              ∷ "-l"
              ∷ "1"
              ∷ without_last 4 reject
              ∷ [])))
          _ w (on_checkout-StaysOpen _ w o)
          λ node w' o'.
            Ends-bind {A = List FailedPath} StaysOpen StaysOpen (Escaped w₀)
              (failed_paths services repo hgrepo rest) _ w'
              (failed_paths-StaysOpen repo hgrepo rest w' o') (λ others w'' o''. o'')

    process_merge_conflict-StaysOpen :
        (e : Error) (repo : Repo) (hgrepo : HgRepo W) (id : Option ℕ) (w : Work W)
        → IsOpen w₀ w
        → Ends StaysOpen (Escaped w₀) (process_merge_conflict services e repo hgrepo id w)
    unfolding process_merge_conflict
    process_merge_conflict-StaysOpen e repo hgrepo id w o =
        Ends-bind {A = List FailedPath} StaysOpen StaysOpen (Escaped w₀)
          (failed_paths services repo hgrepo
            (services.reject_paths (error_text services.library_text e)))
          _ w (failed_paths-StaysOpen repo hgrepo _ w o) (λ failed w' o'. o')

    on_patch_failure-Steps :
        (repo : Repo) (hgrepo : HgRepo W) (revision : Revision) (e : Error) (w : Work W)
        → IsOpen w₀ w
        → Steps (on_patch_failure services repo hgrepo revision e w)
    unfolding on_patch_failure change_job on_session
    on_patch_failure-Steps repo hgrepo revision (patch_conflict m) w o =
        Ends-bind {A = Breakdown} StaysOpen Stops (Escaped w₀)
          (process_merge_conflict services (patch_conflict m) repo hgrepo revision.revision_id) _ w
          (process_merge_conflict-StaysOpen (patch_conflict m) repo hgrepo revision.revision_id w o)
          λ breakdown w' o'.
            Steps-failed services _ _
              (record { status = o'.status; attempts = o'.attempts; notices = o'.notices })
    on_patch_failure-Steps repo hgrepo revision no_diff_start_line w o = Steps-failed services _ w o
    on_patch_failure-Steps repo hgrepo revision _ w o = Steps-failed services _ w o

    pub pull-Steps :
        (repo : Repo) (hgrepo : HgRepo W) (w : Work W)
        → IsOpen w₀ w
        → Steps (pull services repo hgrepo w)
    unfolding pull
    pull-Steps repo hgrepo w o =
        Steps-attempt
          (hgrepo.update_repo repo.pull_path w.session.job.target_commit_hash
            w.session.job.target_commit_hash_vcs)
          (λ _. pure (go tt)) (on_pull_failure services repo) w o (λ _ w' o'. o')
          (on_pull_failure-Steps services repo)

    pub apply_patches-Steps :
        (repo : Repo) (hgrepo : HgRepo W) (revisions : List Revision) (w : Work W)
        → IsOpen w₀ w
        → Steps (apply_patches services repo hgrepo revisions w)
    unfolding apply_patches
    apply_patches-Steps repo hgrepo [] w o = o
    apply_patches-Steps repo hgrepo (revision ∷ rest) w o =
        let next = apply_patches-Steps repo hgrepo rest in
        Steps-attempt (hgrepo.apply_patch revision.patch_string)
          (λ _. apply_patches services repo hgrepo rest)
          (on_patch_failure services repo hgrepo revision) w o (λ _ w' o'. next w' o')
          (on_patch_failure-Steps repo hgrepo revision)

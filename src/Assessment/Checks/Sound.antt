-- ===== src/Assessment/Checks/Sound.antt =====
-- An assessment without blockers: each revision that it assesses has passed each of its checks.
use lando_api.Common.{
  subst, Option, sym, false, All, true, Bool, refl, ◌∙◌, ap, ◌≡◌, ◌++◌, String, List, none, some,
  [], ◌∷◌,
}
use lando_api.Common.Exec.{
  gets, ◌>>=◌, modify, raised, ◌>>◌, continue, when, Exec, returned, Outcome,
}
use lando_api.Assessment.State.{
  Progress, LandingAssessment, PhabDiff, PhabRevision, StackState, Digraph,
}
use lando_api.Assessment.Checks.{
  choose_repo, settle_repo, blocker_stack_landing_path_landable, blocker_user_no_auth0_email,
  blocker_landing_already_requested, revision_check_pairs, blocker_stack_landing_path_valid,
  run_warning_checks, set_landing_repo, run_landing_checks, blocker_single_landing_repo,
  RevisionWarning, run_stack_checks, remove_blocked, revision_blocker_checks, is_assessed,
  run_revision_checks, run_checks, note_reason, Run, block,
}
use lando_api.Assessment.Blockers.{Reason}
use lando_api.Landing.Repo.{Repo}

append_some : (xs : List String) (x : String) → xs ++ x ∷ [] ≡ [] → ⊥
append_some [] x e = cc
append_some (y ∷ ys) x e = cc

module _ {G : Type 0} (D : Digraph G) (s : StackState G) where
  -- The checks have passed on the landable stack of a run.
  abbrev pub HavePassed : Run G → List (G → Outcome Reason) → Type 0
  HavePassed r checks = All (λ check. check r.progress.landable_stack ≡ returned none) checks

  -- A run that ends with no blockers had none before.
  block-quiet :
      (reason : Reason) (r r' : Run G)
      → block D s reason r ≡ (returned tt, r')
      → r'.blockers ≡ []
      → (r.blockers ≡ []) × (reason ≡ none)
  unfolding block
  block-quiet none r r' e q = (ap (λ p. p.1.blockers) e ∙ q, refl)
  block-quiet (some x) r r' e q = absurd (append_some r.blockers x (ap (λ p. p.1.blockers) e ∙ q))

  block-progress :
      (reason : Reason) (r r' : Run G)
      → block D s reason r ≡ (returned tt, r')
      → r.progress ≡ r'.progress
  unfolding block
  block-progress none r r' e = ap (λ p. p.1.progress) e
  block-progress (some x) r r' e = ap (λ p. p.1.progress) e

  note_some :
      (b : Bool) (phid x : String) (r r' : Run G)
      → (when b (block D s (some x))
            >> modify (λ v. record v { progress = remove_blocked D s phid x v.progress }))
          r
        ≡ (returned tt, r')
      → r'.blockers ≡ []
      → (r.blockers ≡ []) × (b ≡ false)
  unfolding block
  note_some true phid x r r' e q = absurd (append_some r.blockers x (ap (λ p. p.1.blockers) e ∙ q))
  note_some false phid x r r' e q = (ap (λ p. p.1.blockers) e ∙ q, refl)

  note_reason-quiet :
      (phid : String) (reason : Reason) (r r' : Run G)
      → note_reason D s phid reason r ≡ (returned tt, r')
      → r'.blockers ≡ []
      → (r.blockers ≡ []) × (is_assessed D s phid ≡ true → reason ≡ none)
  unfolding note_reason
  note_reason-quiet phid none r r' e q = (ap (λ p. p.1.blockers) e ∙ q, λ _. refl)
  note_reason-quiet phid (some x) r r' e q =
      let (h, n) = note_some (is_assessed D s phid) phid x r r' e q in (h, λ t. cc)

  -- A check that passes leaves the landable stack as it is.
  pub note_none :
      (phid : String) (reason : Reason) (r r' : Run G)
      → note_reason D s phid reason r ≡ (returned tt, r')
      → reason ≡ none
      → r'.progress.landable_stack ≡ r.progress.landable_stack
  unfolding note_reason
  note_none phid none r r' e n = ap (λ p. p.1.progress.landable_stack) (sym e)
  note_none phid (some x) r r' e n = absurd (cc)

  -- If the first check passes on a run, and the others on the run that this leaves, all of them pass on
  -- the first run.
  pub passed_before :
      (phid : String) (check : G → Outcome Reason) (checks : List (G → Outcome Reason))
      (reason : Reason) (r r₁ : Run G)
      → check r.progress.landable_stack ≡ returned reason
      → note_reason D s phid reason r ≡ (returned tt, r₁)
      → reason ≡ none
      → HavePassed r₁ checks
      → HavePassed r (check ∷ checks)
  passed_before phid check checks reason r r₁ c m n h = (
    c ∙ ap returned n,
    subst (λ landable. All (λ k. k landable ≡ returned none) checks)
        (note_none phid reason r r₁ m n) h,
  )

  -- Where a sequence returns, both of its parts return.
  pub split_seq :
      {A : Type 0} (m : Outcome (Unit {0}) × Run G) (k : Exec (Run G) A) {a : A} {r' : Run G}
      → continue m.0 (λ _. k) m.1 ≡ (returned a, r')
      → (r₁ : Run G) × (m ≡ (returned tt, r₁)) × (k r₁ ≡ (returned a, r'))
  split_seq (returned _, r₁) k e = (r₁, refl, e)
  split_seq (raised x, r₁) k e = cc

  run_checks-quiet :
      (phid : String) (checks : List (G → Outcome Reason)) (r r' : Run G)
      → run_checks D s phid checks r ≡ (returned tt, r')
      → r'.blockers ≡ []
      → (r.blockers ≡ []) × (is_assessed D s phid ≡ true → HavePassed r checks)
  unfolding run_checks
  run_checks-quiet phid [] r r' e q = (ap (λ p. p.1.blockers) e ∙ q, λ _. tt)
  run_checks-quiet phid (check ∷ checks) r r' e q =
      checked (λ r₁ k. run_checks-quiet phid checks r₁ r' k q) (check r.progress.landable_stack)
        refl e
    where
      checked :
          ((r₁ : Run G)
            → run_checks D s phid checks r₁ ≡ (returned tt, r')
            → (r₁.blockers ≡ []) × (is_assessed D s phid ≡ true → HavePassed r₁ checks))
          → (found : Outcome Reason) → check r.progress.landable_stack ≡ found
          → continue found (λ reason. note_reason D s phid reason >> run_checks D s phid checks) r
            ≡ (returned tt, r')
          → (r.blockers ≡ []) × (is_assessed D s phid ≡ true → HavePassed r (check ∷ checks))
      checked ih (raised x) c h = cc
      checked ih (returned reason) c h =
          let (r₁, m, k) =
            split_seq (note_reason D s phid reason r) (run_checks D s phid checks) h in
          let (q₁, rest) = ih r₁ k in
          let (q₀, passed) = note_reason-quiet phid reason r r₁ m q₁ in
          (q₀, λ t. passed_before phid check checks reason r r₁ c m (passed t) (rest t))

  -- From a run on, the checks of one revision after the other return, and those of a revision that the
  -- assessment is about pass on the landable stack that the revisions before it have left; the last
  -- revision leaves the stack `final`.
  abbrev pub PassedAlong : List (PhabRevision × PhabDiff) → Run G → (final : G) → Type 0
  PassedAlong [] r final = r.progress.landable_stack ≡ final
  PassedAlong ((revision, diff) ∷ pairs) r final =
      (r₁ : Run G) × (run_checks D s revision.phid (revision_blocker_checks D s revision diff) r
        ≡ (returned tt, r₁))
      × (is_assessed D s revision.phid ≡ true
          → HavePassed r (revision_blocker_checks D s revision diff))
      × PassedAlong pairs r₁ final

  run_revision_checks-quiet :
      (pairs : List (PhabRevision × PhabDiff)) (r r' : Run G)
      → run_revision_checks D s pairs r ≡ (returned tt, r')
      → r'.blockers ≡ []
      → (r.blockers ≡ []) × PassedAlong pairs r r'.progress.landable_stack
  unfolding run_revision_checks
  run_revision_checks-quiet [] r r' e q =
      (ap (λ p. p.1.blockers) e ∙ q, ap (λ p. p.1.progress.landable_stack) e)
  run_revision_checks-quiet ((revision, diff) ∷ pairs) r r' e q =
      let (r₁, m, k) =
        split_seq (run_checks D s revision.phid (revision_blocker_checks D s revision diff) r)
          (run_revision_checks D s pairs) e in
      let (q₁, rest) = run_revision_checks-quiet pairs r₁ r' k q in
      let (q₀, passed) =
        run_checks-quiet revision.phid (revision_blocker_checks D s revision diff) r r₁ m q₁ in
      (q₀, (r₁, m, passed, rest))

  settle_repo-quiet :
      (c : Reason × Option Repo) (r r' : Run G)
      → settle_repo D s c r ≡ (returned tt, r')
      → r'.blockers ≡ []
      → r.blockers ≡ []
  unfolding settle_repo set_landing_repo
  settle_repo-quiet (none, repo) r r' e q = ap (λ p. p.1.blockers) e ∙ q
  settle_repo-quiet (some why, repo) r r' e q = (block-quiet (some why) r r' e q).0

  choose_repo-quiet :
      (landing : Option LandingAssessment) (r r' : Run G)
      → choose_repo D s landing r ≡ (returned tt, r')
      → r'.blockers ≡ []
      → r.blockers ≡ []
  unfolding choose_repo
  choose_repo-quiet none r r' e q = ap (λ p. p.1.blockers) e ∙ q
  choose_repo-quiet (some landing) r r' e q = settle_repo-quiet _ r r' e q

  single-quiet :
      (r r' : Run G)
      → blocker_single_landing_repo D s r ≡ (returned tt, r')
      → r'.blockers ≡ []
      → r.blockers ≡ []
  unfolding blocker_single_landing_repo
  single-quiet r r' e q = choose_repo-quiet s.landing_assessment r r' e q

  stack_checks-quiet :
      (r r' : Run G)
      → run_stack_checks D s r ≡ (returned tt, r')
      → r'.blockers ≡ []
      → (blocker_stack_landing_path_valid D s r.progress.landable_stack ≡ none)
        × (blocker_landing_already_requested D s ≡ none)
        × (blocker_user_no_auth0_email D s ≡ none)
  unfolding run_stack_checks
  stack_checks-quiet r r' e q =
      let (r₁, m₁, k₁) =
        split_seq (block D s (blocker_stack_landing_path_valid D s r.progress.landable_stack) r) _
          e in
      let (r₂, m₂, k₂) = split_seq (block D s (blocker_landing_already_requested D s) r₁) _ k₁ in
      let (r₃, m₃, k₃) = split_seq (block D s (blocker_user_no_auth0_email D s) r₂) _ k₂ in
      let q₃ = single-quiet r₃ r' k₃ q in
      let (q₂, p₃) = block-quiet (blocker_user_no_auth0_email D s) r₂ r₃ m₃ q₃ in
      let (q₁, p₂) = block-quiet (blocker_landing_already_requested D s) r₁ r₂ m₂ q₂ in
      let (q₀, p₁) =
        block-quiet (blocker_stack_landing_path_valid D s r.progress.landable_stack) r r₁ m₁ q₁ in
      (p₁, p₂, p₃)

  module _ (warning_checks : PhabRevision → PhabDiff → Outcome (List RevisionWarning)) where
    run_warning_checks-keeps :
        (pairs : List (PhabRevision × PhabDiff)) (r r' : Run G)
        → run_warning_checks D s warning_checks pairs r ≡ (returned tt, r')
        → (r'.blockers ≡ r.blockers) × (r'.progress ≡ r.progress)
    unfolding run_warning_checks
    run_warning_checks-keeps [] r r' e =
        (ap (λ p. p.1.blockers) (sym e), ap (λ p. p.1.progress) (sym e))
    run_warning_checks-keeps ((revision, diff) ∷ pairs) r r' e =
        warned (run_warning_checks-keeps pairs) (warning_checks revision diff)
          (is_assessed D s revision.phid) e
      where
        warned :
            ((r₁ r₂ : Run G)
              → run_warning_checks D s warning_checks pairs r₁ ≡ (returned tt, r₂)
              → (r₂.blockers ≡ r₁.blockers) × (r₂.progress ≡ r₁.progress))
            → (found : Outcome (List RevisionWarning)) (b : Bool)
            → continue found
                (λ ws.
                  when b (modify (λ v. record v { warnings = v.warnings ++ ws }))
                  >> run_warning_checks D s warning_checks pairs)
                r
              ≡ (returned tt, r')
            → (r'.blockers ≡ r.blockers) × (r'.progress ≡ r.progress)
        warned ih (raised x) b h = cc
        warned ih (returned ws) true h = ih (record r { warnings = r.warnings ++ ws }) r' h
        warned ih (returned ws) false h = ih r r' h

    -- If the checks return an assessment without blockers, then, from the run that the checks of the
    -- whole stack leave, each revision that the assessment is about has passed every one of its
    -- blocker checks on the landable stack that the revisions before it left; no landing of the stack
    -- is under way; a user who asks for a landing has an e-mail address; and the path that was asked
    -- for is a path in the stack at the start, and begins a landable path at the end, when the
    -- blocked revisions are removed from it.
    pub run_landing_checks_sound :
        (pairs : List (PhabRevision × PhabDiff)) (r r' : Run G)
        → revision_check_pairs D s s.revisions ≡ returned pairs
        → run_landing_checks D s warning_checks r ≡ (returned tt, r')
        → r'.blockers ≡ []
        → ((r₁ : Run G) × (run_stack_checks D s r ≡ (returned tt, r₁))
            × PassedAlong pairs r₁ r'.progress.landable_stack)
          × (blocker_landing_already_requested D s ≡ none)
          × (blocker_user_no_auth0_email D s ≡ none)
          × (blocker_stack_landing_path_valid D s r.progress.landable_stack ≡ none)
          × (blocker_stack_landing_path_landable D s r'.progress.landable_stack ≡ none)
    unfolding run_landing_checks
    run_landing_checks_sound pairs r r' paired e q =
        let (r₁, m₁, k₁) = split_seq (run_stack_checks D s r) _ e in
        let (r₂, m₂, k₂) = split_seq (run_revision_checks D s pairs r₁) (after pairs) (
          ap (λ f. continue f (λ ps. run_revision_checks D s ps >> after ps) r₁) (sym paired)
          ∙ k₁) in
        let (r₃, m₃, k₃) = split_seq (run_warning_checks D s warning_checks pairs r₂) finally k₂ in
        let (kept, same) = run_warning_checks-keeps pairs r₂ r₃ m₃ in
        let landable = r₃.progress.landable_stack in
        let (q₃, p₃) = block-quiet (blocker_stack_landing_path_landable D s landable) r₃ r' k₃ q in
        let (q₁, passed) = run_revision_checks-quiet pairs r₁ r₂ m₂ (sym kept ∙ q₃) in
        let (valid, requested, email) = stack_checks-quiet r r₁ m₁ q₁ in
        let ended = block-progress (blocker_stack_landing_path_landable D s landable) r₃ r' k₃ in
        (
          (
            r₁,
            m₁,
            subst (λ (p : Progress G). PassedAlong pairs r₁ p.landable_stack) (sym same ∙ ended)
                passed,
          ),
          requested,
          email,
          valid,
          subst
              (λ (p : Progress G). blocker_stack_landing_path_landable D s p.landable_stack ≡ none)
              ended p₃,
        )
      where
        finally : Exec (Run G) Unit
        finally = do
          landable ← gets (λ v. v.progress.landable_stack)
          block D s (blocker_stack_landing_path_landable D s landable)

        after : List (PhabRevision × PhabDiff) → Exec (Run G) Unit
        after ps = run_warning_checks D s warning_checks ps >> finally

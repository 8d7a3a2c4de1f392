-- ===== src/Assessment/Checks/Removal.antt =====
-- What the checks of one revision leave of the landable stack.
use lando_api.Common.{
  refl, sym, ◌∙◌, ap, ==-ne, ==-refl, inr, Bool-cases, ◌⊎◌, ◌≢◌, List, Bool, inl, ◌≡◌, String, none,
  some, [], ◌∷◌, true, false,
}
use lando_api.Common.Exec.{raised, continue, modify, returned, when, Outcome, ◌>>◌}
use lando_api.Assessment.State.{Progress, StackState, IsDigraph, Digraph}
use lando_api.Assessment.Checks.{is_assessed, block, Run, note_reason, remove_blocked, run_checks}
use lando_api.Assessment.Blockers.{Reason}
use lando_api.Assessment.Checks.Sound.{split_seq, HavePassed, passed_before}

module _ {G : Type 0} (D : Digraph G) (L : IsDigraph D) (s : StackState G) where
  -- The nodes of the landable stack.
  abbrev pub nodes : Run G → String → Bool
  nodes r n = D.has_node n r.progress.landable_stack

  -- The revision is gone from the stack, or it stands there still and `passed` holds of it; each
  -- other node stands there as before.
  pub record IsPruned (phid : String) (passed : Type 0) (r r' : Run G) : Type 0 where
    pub outcome : (nodes r' phid ≡ false) ⊎ (passed × (nodes r' phid ≡ nodes r phid))
    pub others : (n : String) → n ≢ phid → nodes r' n ≡ nodes r n

  removed_node :
      (phid reason : String) (p : Progress G)
      → D.has_node phid (remove_blocked D s phid reason p).landable_stack ≡ false
  unfolding remove_blocked
  removed_node phid reason p = elim (Bool-cases (D.has_node phid p.landable_stack)) [
    | inl t ↦ rw t (rw (L.removed phid phid p.landable_stack) (rw (==-refl phid) refl))
    | inr f ↦ rw f f
  ]

  other_node :
      (phid reason n : String) (p : Progress G)
      → n ≢ phid
      → D.has_node n (remove_blocked D s phid reason p).landable_stack
        ≡ D.has_node n p.landable_stack
  unfolding remove_blocked
  other_node phid reason n p h = elim (Bool-cases (D.has_node phid p.landable_stack)) [
    | inl t ↦ rw t (rw (L.removed n phid p.landable_stack) (rw (==-ne n phid h) refl))
    | inr f ↦ rw f refl
  ]

  noted :
      (b : Bool) (phid x : String) (r r' : Run G)
      → (when b (block D s (some x))
            >> modify (λ v. record v { progress = remove_blocked D s phid x v.progress }))
          r
        ≡ (returned tt, r')
      → r'.progress ≡ remove_blocked D s phid x r.progress
  unfolding block
  noted true phid x r r' e = ap (λ p. p.1.progress) (sym e)
  noted false phid x r r' e = ap (λ p. p.1.progress) (sym e)

  note_reason-IsPruned :
      (phid : String) (reason : Reason) (r r' : Run G)
      → note_reason D s phid reason r ≡ (returned tt, r')
      → IsPruned phid (reason ≡ none) r r'
  unfolding note_reason
  note_reason-IsPruned phid none r r' e =
      let same : r'.progress ≡ r.progress = ap (λ p. p.1.progress) (sym e) in
      record {
        outcome = inr (refl, ap (λ (p : Progress G). D.has_node phid p.landable_stack) same);
        others = λ n h. ap (λ (p : Progress G). D.has_node n p.landable_stack) same;
      }
  note_reason-IsPruned phid (some x) r r' e =
      let same = noted (is_assessed D s phid) phid x r r' e in
      record {
        outcome = inl (
            ap (λ (p : Progress G). D.has_node phid p.landable_stack) same
            ∙ removed_node phid x r.progress);
        others = λ n h.
            ap (λ (p : Progress G). D.has_node n p.landable_stack) same
            ∙ other_node phid x n r.progress h;
      }

  -- Two steps, of which the second leaves a removed node removed.
  IsPruned-twice :
      (phid : String) (P Q : Type 0) (r r₁ r' : Run G)
      → IsPruned phid P r r₁
      → IsPruned phid Q r₁ r'
      → IsPruned phid (P × Q) r r'
  IsPruned-twice phid P Q r r₁ r' a b = record {
    outcome = elim b.outcome [
      | inl gone ↦ inl gone
      | inr (q, kept) ↦ elim a.outcome [
        | inl gone ↦ inl (kept ∙ gone)
        | inr (p, before) ↦ inr ((p, q), kept ∙ before)
      ]
    ];
    others = λ n h. b.others n h ∙ a.others n h;
  }

  IsPruned-map :
      (phid : String) (P Q : Type 0) (r r' : Run G)
      → (P → Q)
      → IsPruned phid P r r'
      → IsPruned phid Q r r'
  IsPruned-map phid P Q r r' f a = record {
    outcome = elim a.outcome [ inl gone ↦ inl gone | inr (p, kept) ↦ inr (f p, kept) ];
    others = a.others;
  }

  -- If the checks of a revision return, then either the revision is no longer in the landable stack,
  -- or each of its checks has passed on the landable stack before them and it is there exactly if it
  -- was there before; every other revision is there exactly if it was there before. This relies on the removal of a node from the graph, which
  -- removes that node and no other.
  pub run_checks-IsPruned :
      (phid : String) (checks : List (G → Outcome Reason)) (r r' : Run G)
      → run_checks D s phid checks r ≡ (returned tt, r')
      → IsPruned phid (HavePassed D s r checks) r r'
  unfolding run_checks
  run_checks-IsPruned phid [] r r' e =
      let same : r'.progress ≡ r.progress = ap (λ p. p.1.progress) (sym e) in
      record {
        outcome = inr (tt, ap (λ (p : Progress G). D.has_node phid p.landable_stack) same);
        others = λ n h. ap (λ (p : Progress G). D.has_node n p.landable_stack) same;
      }
  run_checks-IsPruned phid (check ∷ checks) r r' e =
      checked (λ r₁ k. run_checks-IsPruned phid checks r₁ r' k) (check r.progress.landable_stack)
        refl e
    where
      checked :
          ((r₁ : Run G)
            → run_checks D s phid checks r₁ ≡ (returned tt, r')
            → IsPruned phid (HavePassed D s r₁ checks) r₁ r')
          → (found : Outcome Reason) → check r.progress.landable_stack ≡ found
          → continue found (λ reason. note_reason D s phid reason >> run_checks D s phid checks) r
            ≡ (returned tt, r')
          → IsPruned phid (HavePassed D s r (check ∷ checks)) r r'
      checked ih (raised x) c h = absurd (cc)
      checked ih (returned reason) c h =
          let (r₁, m, k) =
            split_seq D s (note_reason D s phid reason r) (run_checks D s phid checks) h in
          IsPruned-map phid ((reason ≡ none) × HavePassed D s r₁ checks)
            (HavePassed D s r (check ∷ checks)) r r'
            (λ p. passed_before D s phid check checks reason r r₁ c m p.0 p.1)
            (IsPruned-twice phid (reason ≡ none) (HavePassed D s r₁ checks) r r₁ r'
              (note_reason-IsPruned phid reason r r₁ m) (ih r₁ k))

-- ===== src/Landing/Start/Termination.antt =====
-- When the event loop ends.
use lando_api.Common.{
  refl, sym, ℕ, zero, suc, ◌+◌, ◌≤◌, ◌≡◌, Bool, true, false, not, ◌||◌, Option, some, none, String,
  arith, subst, if◌then◌else◌,
}
use lando_api.Common.Exec.{Error, Exec, ◌>>=◌, ◌>>◌, pure}
use lando_api.Common.Exec.Ends.{Ends, Ends-bind}
use lando_api.Landing.Start.{
  Process, WorkerClass, is_paused, is_running, is_switched_on, is_done, wait, start_from, start,
}
use lando_api.Common.Int.{ℤ}

-- A choice whose first branch only returns.
choose :
    {S A : Type 0} (Q : A → S → Type 0) (E : Error → S → Type 0) (b : Bool) (a : A)
    (more : Exec S A) (s : S)
    → (b ≡ true → Q a s)
    → (b ≡ false → Ends Q E (more s))
    → Ends Q E ((if b then pure a else more) s)
choose Q E true a more s f g = f refl
choose Q E false a more s f g = g refl

module _ {W : Type 0} (int_of : String → Option ℤ) (c : WorkerClass W) where
  -- The worker is not paused, the variables can be read, and `setup` and `loop` return, in every state
  -- of which `Holds` holds; and then it holds again.
  pub record IsSteady (Holds : Process W → Type 0) : Type 0 where
    pub paused_ends :
        (p : Process W)
        → Holds p
        → Ends (λ b q. (b ≡ false) × Holds q) (λ e q. ⊥) (is_paused int_of c p)
    pub stop_ends :
        (p : Process W)
        → Holds p
        → Ends (λ b q. Holds q) (λ e q. ⊥) (is_switched_on int_of c c.stop_key p)
    pub setup_ends : (p : Process W) → Holds p → Ends (λ b q. Holds q) (λ e q. ⊥) (c.setup p)
    pub loop_ends : (p : Process W) → Holds p → Ends (λ b q. Holds q) (λ e q. ⊥) (c.loop p)

  module _ (Holds : Process W → Type 0) (h : IsSteady Holds) where
    running-Ends :
        (p : Process W) → Holds p → Ends (λ b q. Holds q) (λ e q. ⊥) (is_running int_of c p)
    unfolding is_running
    running-Ends p hp =
        Ends-bind (λ (b : Bool) q. Holds q) (λ (b : Bool) q. Holds q) (λ e q. ⊥)
          (is_switched_on int_of c c.stop_key) (λ stopped. pure (not stopped)) p (h.stop_ends p hp)
          (λ b q k. k)

    wait_lem :
        (fuel : ℕ) (p : Process W)
        → Holds p
        → Ends (λ b q. (b ≡ true) × Holds q) (λ e q. ⊥) (wait int_of c (suc fuel) p)
    unfolding wait
    wait_lem fuel p hp =
        Ends-bind (λ b q. (b ≡ false) × Holds q) _ _ (is_paused int_of c) _ p (h.paused_ends p hp)
          (λ b q k. rw k.0 (refl, k.1))

    -- The exit after at most `n` more loops.
    abbrev pub Exits : ℕ → Option ℕ → Process W → Type 0
    Exits bound r q = (loops : ℕ) × (r ≡ some loops) × (loops ≤ bound) × Holds q

    next_lem :
        (Q : Option ℕ → Process W → Type 0) (fuel : ℕ) (rest : Exec (Process W) (Option ℕ))
        (p : Process W)
        → ((q : Process W) → Holds q → Ends Q (λ e r. ⊥) (rest q))
        → Holds p
        → Ends Q
            (λ e r. ⊥)
            ((wait int_of c (suc fuel) >>= λ awake. if awake then c.loop >> rest else pure none) p)
    next_lem Q fuel rest p f hp =
        Ends-bind (λ b q. (b ≡ true) × Holds q) Q (λ e r. ⊥) (wait int_of c (suc fuel))
          (λ awake. if awake then c.loop >> rest else pure none) p (wait_lem fuel p hp)
          (λ b q k.
            subst (λ x. Ends Q (λ e r. ⊥) ((if x then c.loop >> rest else pure none) q)) (sym k.0)
              (Ends-bind (λ u r. Holds r) Q (λ e r. ⊥) c.loop (λ _. rest) q (h.loop_ends q k.1)
                (λ u r. f r)))

    none_left : (b : Bool) (n : ℕ) → (not b || is_done int_of c (some n) n) ≡ false → ⊥
    unfolding is_done
    none_left true n e = ground arith
    none_left false n e = cc

    start_from-Exits :
        (n bound loops : ℕ) (p : Process W)
        → n + loops ≡ bound
        → Holds p
        → Ends (Exits bound) (λ e q. ⊥) (start_from int_of c (suc (suc n)) (some bound) loops p)
    unfolding start_from
    start_from-Exits zero bound loops p e hp =
        Ends-bind (λ b q. Holds q) _ _ (is_running int_of c) _ p (running-Ends p hp)
          (λ b q k.
            choose (Exits bound) (λ e q. ⊥) (not b || is_done int_of c (some bound) loops)
              (some loops) _ q (λ t. (loops, refl, omega (arith, e), k))
              (λ f.
                let same : bound ≡ loops = omega (arith, e) in
                absurd (none_left b loops (rw same at f))))
    start_from-Exits (suc n) bound loops p e hp =
        Ends-bind (λ b q. Holds q) _ _ (is_running int_of c) _ p (running-Ends p hp)
          (λ b q k.
            choose (Exits bound) (λ e q. ⊥) (not b || is_done int_of c (some bound) loops)
              (some loops) _ q (λ t. (loops, refl, omega (arith, e), k))
              (λ f.
                next_lem (Exits bound) (suc n)
                  (start_from int_of c (suc (suc n)) (some bound) (loops + 1)) q
                  (λ r. start_from-Exits n bound (loops + 1) r (omega (arith, e))) k))

    -- If the worker is not paused, its variables can be read, and its `setup` and `loop` return, then
    -- `start` with a maximal number of loops returns, on fuel of two more than that number, and it
    -- exits after at most that many
    -- loops, in a state in which this holds still.
    pub start-Exits :
        (max_loops : ℕ) (p : Process W)
        → Holds p
        → Ends
            (Exits max_loops)
            (λ e q. ⊥)
            (start int_of c (suc (suc max_loops)) (some max_loops) p)
    unfolding start
    start-Exits max_loops p hp =
        Ends-bind (λ (b : Bool) q. Holds q) (Exits max_loops) (λ e q. ⊥)
          (is_switched_on int_of c c.stop_key) _ p (h.stop_ends p hp)
          (λ b q k.
            choose (Exits max_loops) (λ e q. ⊥) b (some 0) _ q (λ t. (0, refl, omega arith, k))
              (λ f.
                Ends-bind (λ u r. Holds r) (Exits max_loops) (λ e q. ⊥) c.setup _ q
                  (h.setup_ends q k)
                  (λ u r k'. start_from-Exits max_loops max_loops 0 r (omega arith) k')))

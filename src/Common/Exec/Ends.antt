-- ===== src/Common/Exec/Ends.antt =====
-- What holds when an action ends: one statement for a return, and one for an exception.
use lando_api.Common.Exec.{Exec, Outcome, Error, returned, raised, ◌>>=◌}
use mathlib.Core.Path.{◌≡◌, subst}

abbrev pub Ends {ℓ κ} :
    {S A : Type ℓ} → (A → S → Type κ) → (Error → S → Type κ) → Outcome A × S → Type κ
Ends Q E (returned a, s) = Q a s
Ends Q E (raised e, s) = E e s

module _ {ℓ κ} {S A B : Type ℓ} (P : A → S → Type κ) (Q : B → S → Type κ)
    (E : Error → S → Type κ) where
  after :
      (r : Outcome A × S) (f : A → Exec S B)
      → Ends P E r
      → ((a : A) (s : S) → P a s → Ends Q E (f a s))
      → Ends Q E (((λ _. r) >>= f) r.1)
  after (returned a, s) f h k = k a s h
  after (raised e, s) f h k = h

  -- The rule for a sequence of two actions.
  pub Ends-bind :
      (m : Exec S A) (f : A → Exec S B) (s : S)
      → Ends P E (m s)
      → ((a : A) (s' : S) → P a s' → Ends Q E (f a s'))
      → Ends Q E ((m >>= f) s)
  Ends-bind m f s h k = after (m s) f h k

module _ {ℓ κ} {S A : Type ℓ} (Q : A → S → Type κ) (E : Error → S → Type κ) where
  pub Ends-weaken :
      (P : A → S → Type κ) (F : Error → S → Type κ) (r : Outcome A × S)
      → Ends P F r
      → ((a : A) (s : S) → P a s → Q a s)
      → ((e : Error) (s : S) → F e s → E e s)
      → Ends Q E r
  Ends-weaken P F (returned a, s) h p q = p a s h
  Ends-weaken P F (raised e, s) h p q = q e s h

  pub Ends-returned : (r : Outcome A × S) {a : A} {s : S} → Ends Q E r → r ≡ (returned a, s) → Q a s
  Ends-returned r h e = subst (Ends Q E) e h

  pub Ends-raised : (r : Outcome A × S) {x : Error} {s : S} → Ends Q E r → r ≡ (raised x, s) → E x s
  Ends-raised r h e = subst (Ends Q E) e h

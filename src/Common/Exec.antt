-- ===== src/Common/Exec.antt =====
-- Python code that mutates objects and may raise. What was written before an exception stays
-- written, so the state comes back beside the exception too.
pub mod Ends
use Prim.Native.Nat.{ℕ}
use Prim.Native.String.{String}
use mathlib.Core.Bool.{Bool, true, false}
use mathlib.Core.List.{List, [], ◌∷◌}

pub data Error : Type 0 where
  -- `connexion.ProblemException` with its HTTP status and title
  problem : ℕ → String → Error
  value_error key_error attribute_error integrity_error : String → Error
  -- `hglib.error.CommandError`, with what the command wrote to stdout and stderr
  command_error : String → String → Error
  -- landoapi/hg.py
  hg_command_error lost_push_race patch_conflict tree_closed tree_approval_required push_timeout
        hgmo_internal_server_error :
      String → Error
  no_diff_start_line : Error
  cinnabar_conversion_error : String → Error
  autoformatting_exception : (details : String) → Error
  -- `subprocess.CalledProcessError`, with the process's stdout
  called_process_error : String → Error
  -- `kombu.exceptions.OperationalError`
  operational_error : String → Error
  other : String → Error

pub data Outcome {ℓ} (A : Type ℓ) : Type ℓ where
  returned : A → Outcome A
  raised : Error → Outcome A

-- The value of the first, passed on to the second.
infixl 10 ◌>>>◌
abbrev pub ◌>>>◌ : {A B : Type 0} → Outcome A → (A → Outcome B) → Outcome B
◌>>>◌ (returned a) f = f a
◌>>>◌ (raised e) f = raised e

abbrev pub Exec {ℓ} : Type ℓ → Type ℓ → Type ℓ
Exec S A = S → Outcome A × S

module _ {ℓ} {S A : Type ℓ} where
  abbrev pub pure : A → Exec S A
  pure a s = (returned a, s)

  abbrev pub raise : Error → Exec S A
  raise e s = (raised e, s)

  abbrev pub lift : Outcome A → Exec S A
  lift r s = (r, s)

  abbrev pub gets : (S → A) → Exec S A
  gets f s = (returned (f s), s)

module _ {ℓ} {S : Type ℓ} where
  abbrev pub modify : (S → S) → Exec S Unit
  modify f s = (returned tt, f s)

module _ {ℓ} {S A B : Type ℓ} where
  abbrev pub continue : Outcome A → (A → Exec S B) → Exec S B
  continue (returned a) f s = f a s
  continue (raised e) f s = (raised e, s)

  infixl 10 ◌>>=◌ ◌>>◌
  abbrev pub ◌>>=◌ : Exec S A → (A → Exec S B) → Exec S B
  ◌>>=◌ m f s = let (r, s') = m s in continue r f s'

  abbrev pub ◌>>◌ : Exec S A → Exec S B → Exec S B
  ◌>>◌ m k = m >>= λ _. k

module _ {ℓ} {S : Type ℓ} where
  abbrev pub when : Bool → Exec S Unit → Exec S Unit
  when true m = m
  when false m = pure tt

-- `try: … except …`: the exception becomes a value, and the writes stay.
abbrev pub attempt {ℓ} : {S A : Type ℓ} → Exec S A → Exec S (Outcome A)
attempt m s = let (r, s') = m s in (returned r, s')

-- `for x in xs: body(x)`, which an exception ends.
unfoldable pub for_each {ℓ} : {S A : Type ℓ} → List A → (A → Exec S Unit) → Exec S Unit
for_each [] body = pure tt
for_each (x ∷ xs) body = body x >> for_each xs body

-- ===== src/Landing/Table.antt =====
-- The table of landing jobs: its primary key, and how two states of it compare row by row.
use lando_api.Common.{
  All-imp, some, find, inr, ==-refl, ◌∙◌, ==-eq, subst, ap, inl, nat_eq, ◌==◌, Bool-cases,
  if◌then◌else◌, refl, sym, ◌≢◌, [], map, ◌≡◌, All, ◌∷◌, ℕ, List,
}
use lando_api.Landing.Job.{LandingJob}

-- The UPDATE of the row with a primary key.
unfoldable pub store : ℕ → LandingJob → List LandingJob → List LandingJob
store id job jobs = map (λ j. if j.id == id then job else j) jobs

-- No two rows have the same id.
abbrev pub IsKeyed : List LandingJob → Type 0
IsKeyed [] = Unit
IsKeyed (a ∷ rest) = All (λ k. k.id ≢ a.id) rest × IsKeyed rest

-- Two tables of the same length whose rows are related place by place.
abbrev pub Rows : (LandingJob → LandingJob → Type 0) → List LandingJob → List LandingJob → Type 0
Rows R [] [] = Unit
Rows R (x ∷ xs) (y ∷ ys) = R x y × Rows R xs ys
Rows R [] (y ∷ ys) = ⊥
Rows R (x ∷ xs) [] = ⊥

-- Each row with the id of `old` is `old`.
abbrev pub Identifies : LandingJob → List LandingJob → Type 0
Identifies old jobs = All (λ k. k.id ≡ old.id → k ≡ old) jobs

identified_more :
    (a : LandingJob) (rest jobs : List LandingJob)
    → All (λ k. k.id ≢ a.id) jobs
    → All (λ old. Identifies old rest) jobs
    → All (λ old. Identifies old (a ∷ rest)) jobs
identified_more a rest [] h k = tt
identified_more a rest (old ∷ jobs) h k =
    (((λ e. absurd (h.0 (sym e))), k.0), identified_more a rest jobs h.1 k.1)

pub keyed : (jobs : List LandingJob) → IsKeyed jobs → All (λ old. Identifies old jobs) jobs
keyed [] h = tt
keyed (a ∷ rest) h = (
  (
    (λ _. refl),
    All-imp (λ k. k.id ≢ a.id) (λ k. k.id ≡ a.id → k ≡ a) rest (λ k n e. absurd (n e)) h.0,
  ),
  identified_more a rest rest h.0 (keyed rest h.1),
)

Rows-map :
    (R : LandingJob → LandingJob → Type 0) (f : LandingJob → LandingJob) (jobs : List LandingJob)
    → All (λ x. R x (f x)) jobs
    → Rows R jobs (map f jobs)
Rows-map R f [] h = tt
Rows-map R f (x ∷ xs) h = (h.0, Rows-map R f xs h.1)

-- A write to the row of `old` relates the tables if it relates that row, and the others to themselves.
pub Rows-store :
    (R : LandingJob → LandingJob → Type 0) (old job : LandingJob) (jobs : List LandingJob)
    → ((x : LandingJob) → R x x)
    → R old job
    → Identifies old jobs
    → Rows R jobs (store old.id job jobs)
unfolding store
Rows-store R old job jobs same written h =
    Rows-map R (λ j. if j.id == old.id then job else j) jobs
      (All-imp (λ k. k.id ≡ old.id → k ≡ old) (λ x. R x (if x.id == old.id then job else x)) jobs
        (λ x e. elim (Bool-cases (x.id == old.id)) [
          | inl t ↦ rw t (subst (λ k. R k job) (sym (e (==-eq x.id old.id t))) written)
          | inr f ↦ rw f (same x)
        ])
        h)

pub Rows-same :
    (R : LandingJob → LandingJob → Type 0) (jobs : List LandingJob)
    → ((x : LandingJob) → R x x)
    → Rows R jobs jobs
Rows-same R [] same = tt
Rows-same R (x ∷ xs) same = (same x, Rows-same R xs same)

-- Of two writes to one row the second stays.
pub store-store :
    (id : ℕ) (first second : LandingJob) (jobs : List LandingJob)
    → first.id ≡ id
    → store id second (store id first jobs) ≡ store id second jobs
unfolding store
store-store id first second [] e = refl
store-store id first second (x ∷ xs) e = elim (Bool-cases (x.id == id)) [
  | inl t ↦ rw t (
      rw (ap (λ i. i == id) e ∙ ==-refl id)
        (ap (λ l. second ∷ l) (store-store id first second xs e)))
  | inr f ↦ rw f (rw f (ap (λ l. x ∷ l) (store-store id first second xs e)))
]

-- A row that is found is found as it was written.
pub find-store :
    (id : ℕ) (old new : LandingJob) (jobs : List LandingJob)
    → new.id ≡ id
    → find (λ j. j.id == id) jobs ≡ some old
    → find (λ j. j.id == id) (store id new jobs) ≡ some new
unfolding store
find-store id old new [] e found = cc
find-store id old new (x ∷ xs) e found = elim (Bool-cases (x.id == id)) [
  | inl t ↦ rw t (rw (ap (λ i. i == id) e ∙ ==-refl id) refl)
  | inr f ↦ rw f (rw f (find-store id old new xs e (rw f at found)))
]

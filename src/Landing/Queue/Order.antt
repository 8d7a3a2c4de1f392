-- ===== src/Landing/Queue/Order.antt =====
-- The order of the queue, and that the query returns the rows that it filters, in that order.
use mathlib.Core.List.Perm
use mathlib.Core.List.{Perm}
use lando_api.Common.{
  ◌↔◌, Bool, All-imp, inr, inl, [], Bool-cases, ◌∷◌, keep, arith, String, All, true, false, Option,
  ℕ, List, ◌≡◌,
}
use lando_api.Landing.Queue.{order_jobs, insert_job, is_queued, job_queue_query, precedes}
use lando_api.Landing.Job.{LandingJob}
use lando_api.Landing.Queue.Waiting.{
  IsWaiting, ComesBefore, is_queued-IsWaiting, precedes-ComesBefore,
}

pub precedes_total : (a b : LandingJob) → precedes a b ≡ false → precedes b a ≡ true
unfolding precedes
precedes_total a b h = ground arith

pub precedes_trans :
    (a b c : LandingJob) → precedes a b ≡ true → precedes b c ≡ true → precedes a c ≡ true
unfolding precedes
precedes_trans a b c h k = ground arith

module _ {ℓ} (Q : LandingJob → Type ℓ) where
  All-of-insert_job :
      (a : LandingJob) (rest : List LandingJob) → All Q (insert_job a rest) → Q a × All Q rest
  unfolding insert_job
  All-of-insert_job a [] h = h
  All-of-insert_job a (b ∷ rest) h = elim (Bool-cases (precedes a b)) [
    | inl e ↦ rw e at h
    | inr e ↦
        let g : All Q (b ∷ insert_job a rest) = rw e at h in
        let (qa, qr) = All-of-insert_job a rest g.1 in (qa, (g.0, qr))
  ]

  -- What holds of all jobs in order holds of all jobs as they were given.
  pub All-of-order_jobs : (jobs : List LandingJob) → All Q (order_jobs jobs) → All Q jobs
  unfolding order_jobs
  All-of-order_jobs [] h = tt
  All-of-order_jobs (a ∷ rest) h =
      let (qa, qr) = All-of-insert_job a (order_jobs rest) h in (qa, All-of-order_jobs rest qr)

  All-insert_job :
      (a : LandingJob) (rest : List LandingJob) → Q a → All Q rest → All Q (insert_job a rest)
  unfolding insert_job
  All-insert_job a [] q h = (q, tt)
  All-insert_job a (b ∷ rest) q h = elim (Bool-cases (precedes a b)) [
    | inl e ↦ rw e (q, h)
    | inr e ↦ rw e (h.0, All-insert_job a rest q h.1)
  ]

  pub All-order_jobs : (jobs : List LandingJob) → All Q jobs → All Q (order_jobs jobs)
  unfolding order_jobs
  All-order_jobs [] h = tt
  All-order_jobs (a ∷ rest) h = All-insert_job a (order_jobs rest) h.0 (All-order_jobs rest h.1)

pub All-keep : {A : Type 0} (p : A → Bool) (xs : List A) → All (λ x. p x ≡ true) (keep p xs)
All-keep p [] = tt
All-keep p (x ∷ xs) = elim (Bool-cases (p x)) [
  | inl e ↦ rw e (e, All-keep p xs)
  | inr e ↦ rw e (All-keep p xs)
]

pub All-of-keep :
    (Q : LandingJob → Type 0) (p : LandingJob → Bool) (xs : List LandingJob)
    → All Q xs
    → All Q (keep p xs)
All-of-keep Q p [] h = tt
All-of-keep Q p (x ∷ xs) h = elim (Bool-cases (p x)) [
  | inl e ↦ rw e (h.0, All-of-keep Q p xs h.1)
  | inr e ↦ rw e (All-of-keep Q p xs h.1)
]

-- Each job precedes all that follow it.
abbrev pub IsSorted : List LandingJob → Type 0
IsSorted [] = Unit
IsSorted (a ∷ rest) = All (λ b. precedes a b ≡ true) rest × IsSorted rest

All-precedes :
    (a b : LandingJob) (rest : List LandingJob)
    → precedes a b ≡ true
    → All (λ c. precedes b c ≡ true) rest
    → All (λ c. precedes a c ≡ true) rest
All-precedes a b [] h k = tt
All-precedes a b (c ∷ rest) h k = (precedes_trans a b c h k.0, All-precedes a b rest h k.1)

insert_job-IsSorted :
    (a : LandingJob) (rest : List LandingJob) → IsSorted rest → IsSorted (insert_job a rest)
unfolding insert_job
insert_job-IsSorted a [] h = (tt, tt)
insert_job-IsSorted a (b ∷ rest) h = elim (Bool-cases (precedes a b)) [
  | inl e ↦ rw e ((e, All-precedes a b rest e h.0), h)
  | inr e ↦ rw e (
    All-insert_job (λ c. precedes b c ≡ true) a rest (precedes_total a b e) h.0,
    insert_job-IsSorted a rest h.1,
  )
]

pub order_jobs-IsSorted : (jobs : List LandingJob) → IsSorted (order_jobs jobs)
unfolding order_jobs
order_jobs-IsSorted [] = tt
order_jobs-IsSorted (a ∷ rest) = insert_job-IsSorted a (order_jobs rest) (order_jobs-IsSorted rest)

insert_job-perm : (a : LandingJob) (rest : List LandingJob) → Perm (insert_job a rest) (a ∷ rest)
unfolding insert_job
insert_job-perm a [] = Perm.refl (a ∷ [])
insert_job-perm a (b ∷ rest) = elim (Bool-cases (precedes a b)) [
  | inl e ↦ rw e (Perm.refl (a ∷ b ∷ rest))
  | inr e ↦ rw e (Perm.trans (Perm.cons b (insert_job-perm a rest)) (Perm.swap a b rest))
]

order_jobs-perm : (jobs : List LandingJob) → Perm (order_jobs jobs) jobs
unfolding order_jobs
order_jobs-perm [] = Perm.refl []
order_jobs-perm (a ∷ rest) =
    Perm.trans (insert_job-perm a (order_jobs rest)) (Perm.cons a (order_jobs-perm rest))

-- Each job comes before all that follow it.
abbrev pub IsOrdered : List LandingJob → Type 0
IsOrdered [] = Unit
IsOrdered (a ∷ rest) = All (ComesBefore a) rest × IsOrdered rest

module _ (repositories : Option (List String)) (grace_seconds now : ℕ) where
  abbrev pub Waiting : LandingJob → Type 0
  Waiting = IsWaiting repositories grace_seconds now

  pub All-ComesBefore :
      (a : LandingJob) (jobs : List LandingJob)
      → Waiting a
      → All Waiting jobs
      → All (λ b. precedes a b ≡ true) jobs
      → All (ComesBefore a) jobs
  All-ComesBefore a [] v w h = tt
  All-ComesBefore a (b ∷ jobs) v w h = (
    precedes-ComesBefore repositories grace_seconds now a b v w.0 h.0,
    All-ComesBefore a jobs v w.1 h.1,
  )

  IsSorted-IsOrdered : (jobs : List LandingJob) → All Waiting jobs → IsSorted jobs → IsOrdered jobs
  IsSorted-IsOrdered [] w h = tt
  IsSorted-IsOrdered (a ∷ jobs) w h =
      (All-ComesBefore a jobs w.0 w.1 h.0, IsSorted-IsOrdered jobs w.1 h.1)

  -- The jobs that pass the filters wait.
  pub keep-Waiting :
      (table : List LandingJob)
      → All Waiting (keep (is_queued repositories grace_seconds now) table)
  keep-Waiting table =
      let p = is_queued repositories grace_seconds now in
      All-imp (λ j. p j ≡ true) Waiting (keep p table)
        (λ j. (is_queued-IsWaiting repositories grace_seconds now j).0) (All-keep p table)

  -- The queue holds the rows of the table that a test lets pass, each as often as in the table. The
  -- test lets exactly the waiting jobs pass: those that are SUBMITTED, IN_PROGRESS or DEFERRED, of a
  -- repository in the list (any if there is no list, or an empty one), and older than the grace period
  -- if it is not 0. Each row of the queue comes before those that follow it: deferred jobs come first,
  -- then those in progress, then the submitted ones; of one status those of higher priority; of one
  -- priority those created earlier.
  pub job_queue_query-refines :
      (table : List LandingJob)
      → Perm
          (job_queue_query repositories grace_seconds now table)
          (keep (is_queued repositories grace_seconds now) table)
        × ((j : LandingJob) → (is_queued repositories grace_seconds now j ≡ true) ↔ Waiting j)
        × IsOrdered (job_queue_query repositories grace_seconds now table)
  unfolding job_queue_query
  job_queue_query-refines table =
      let kept = keep (is_queued repositories grace_seconds now) table in
      (
        order_jobs-perm kept,
        is_queued-IsWaiting repositories grace_seconds now,
        IsSorted-IsOrdered (order_jobs kept) (All-order_jobs Waiting kept (keep-Waiting table))
            (order_jobs-IsSorted kept),
      )

-- ===== src/Landing/Queue/Waiting.antt =====
-- Which jobs wait for the worker, and which of two comes before the other, as the users of the queue
-- would say it: without the tests by which the query filters and orders.
use mathlib.Core.List.{Mem, mem-cons, not-mem-nil}
use mathlib.Core.Logic.Or
use lando_api.Common.{
  ap, false, option_eq, string_eq, ◌≡◌, ◌⊎◌, ◌↔◌, ◌+◌, ◌<◌, ◌≤◌, inl, inr, refl, none, some, [],
  ◌∷◌, true, arith, elem, Eq, ==-eq, ==-refl, ◌==◌, Bool-cases, Option, List, String, ℕ,
}
use lando_api.Landing.Queue.{
  neg_part, pos_part, priority_ltb, rank_of, precedes, applicable_statuses, in_repositories,
  past_grace, is_queued,
}
use lando_api.Landing.Job.{
  status_eq, submitted, in_progress, deferred, at_least_zero, below_zero, LandingJob,
  LandingJobStatus, Priority,
}

-- A worker with no list, or an empty one, serves every repository.
abbrev pub IsServed : Option (List String) → String → Type 0
IsServed none name = Unit
IsServed (some []) name = Unit
IsServed (some (r ∷ rest)) name = Mem name (r ∷ rest)

-- The job is SUBMITTED, IN_PROGRESS or DEFERRED, its repository is served, and it is older than the
-- grace period, if there is one.
pub record IsWaiting (repositories : Option (List String)) (grace_seconds now : ℕ)
    (job : LandingJob) : Type 0 where
  pub has_status :
      (job.status ≡ some submitted)
      ⊎ ((job.status ≡ some in_progress) ⊎ (job.status ≡ some deferred))
  pub is_served : IsServed repositories job.repository_name
  pub is_old : (grace_seconds ≡ 0) ⊎ (job.created_at + grace_seconds < now)

elem-Mem {ℓ} : {A : Type ℓ} ⦃e : Eq A⦄ (a : A) (xs : List A) → elem a xs ≡ true → Mem a xs
elem-Mem a [] h = absurd (cc)
elem-Mem a (x ∷ xs) h = elim (Bool-cases (a == x)) [
  | inl t ↦ mem-cons.1 (Or.inl (==-eq a x t))
  | inr f ↦ mem-cons.1 (Or.inr (elem-Mem a xs (rw f at h)))
]

Mem-elem {ℓ} : {A : Type ℓ} ⦃e : Eq A⦄ (a : A) (xs : List A) → Mem a xs → elem a xs ≡ true
Mem-elem a [] m = absurd (not-mem-nil m)
Mem-elem a (x ∷ xs) m = elim (Bool-cases (a == x)) [
  | inl t ↦ rw t refl
  | inr f ↦ rw f (
      Or.elim (hlevel) (mem-cons.0 m)
        (λ e. let t : (a == x) ≡ true = rw e (==-refl x) in absurd (cc)) (λ h. Mem-elem a xs h))
]

in_repositories-IsServed :
    (repositories : Option (List String)) (job : LandingJob)
    → (in_repositories repositories job ≡ true) ↔ IsServed repositories job.repository_name
unfolding in_repositories
in_repositories-IsServed none job = ((λ _. tt), (λ _. refl))
in_repositories-IsServed (some []) job = ((λ _. tt), (λ _. refl))
in_repositories-IsServed (some (r ∷ rest)) job =
    (elem-Mem job.repository_name (r ∷ rest), Mem-elem job.repository_name (r ∷ rest))

past_grace_iff :
    (grace_seconds now : ℕ) (job : LandingJob)
    → (past_grace grace_seconds now job ≡ true)
      ↔ ((grace_seconds ≡ 0) ⊎ (job.created_at + grace_seconds < now))
unfolding past_grace
past_grace_iff grace_seconds now job = ground arith

has_status_iff :
    (job : LandingJob)
    → (elem job.status applicable_statuses ≡ true) ↔ (
        (job.status ≡ some submitted)
        ⊎ ((job.status ≡ some in_progress) ⊎ (job.status ≡ some deferred)))
unfolding applicable_statuses
has_status_iff job = ground arith

-- The filters of the query let exactly the waiting jobs pass.
pub is_queued-IsWaiting :
    (repositories : Option (List String)) (grace_seconds now : ℕ) (job : LandingJob)
    → (is_queued repositories grace_seconds now job ≡ true)
      ↔ IsWaiting repositories grace_seconds now job
unfolding is_queued
is_queued-IsWaiting repositories grace_seconds now job = (
  (λ h.
      let s : elem job.status applicable_statuses ≡ true = ground arith in
      let r : in_repositories repositories job ≡ true = ground arith in
      let g : past_grace grace_seconds now job ≡ true = ground arith in
      record {
        has_status = (has_status_iff job).0 s;
        is_served = (in_repositories-IsServed repositories job).0 r;
        is_old = (past_grace_iff grace_seconds now job).0 g;
      }),
  (λ w. rw ((has_status_iff job).1 w.has_status) (
      rw ((in_repositories-IsServed repositories job).1 w.is_served)
        ((past_grace_iff grace_seconds now job).1 w.is_old))),
)

-- The place of a job in the queue by its status.
abbrev pub place : Option LandingJobStatus → ℕ
place (some deferred) = 0
place (some in_progress) = 1
place (some submitted) = 2
place _ = 3

-- The first integer is the greater one.
abbrev pub IsHigher : Priority → Priority → Type 0
IsHigher (at_least_zero n) (at_least_zero m) = m < n
IsHigher (at_least_zero n) (below_zero m) = Unit
IsHigher (below_zero n) (at_least_zero m) = ⊥
IsHigher (below_zero n) (below_zero m) = n < m

-- Deferred jobs come first, then those in progress, then the submitted ones; of one status, those of
-- higher priority; of one status and priority, those that were created earlier.
abbrev pub ComesBefore : LandingJob → LandingJob → Type 0
ComesBefore a b =
    (place a.status < place b.status)
    ⊎ ((place a.status ≡ place b.status)
        × (IsHigher a.priority b.priority
            ⊎ ((a.priority ≡ b.priority) × (a.created_at ≤ b.created_at))))

Waits : Option LandingJobStatus → Type 0
Waits s = (s ≡ some submitted) ⊎ ((s ≡ some in_progress) ⊎ (s ≡ some deferred))

place_of_later :
    (s t : Option LandingJobStatus)
    → Waits s
    → Waits t
    → (rank_of t < rank_of s → place s < place t) × (rank_of s ≡ rank_of t → place s ≡ place t)
unfolding rank_of Waits
place_of_later s t (inl e) (inl f) = rw e (rw f (omega arith, λ _. refl))
place_of_later s t (inl e) (inr (inl f)) = rw e (rw f (omega arith, omega arith))
place_of_later s t (inl e) (inr (inr f)) = rw e (rw f (omega arith, omega arith))
place_of_later s t (inr (inl e)) (inl f) = rw e (rw f (omega arith, omega arith))
place_of_later s t (inr (inl e)) (inr (inl f)) = rw e (rw f (omega arith, λ _. refl))
place_of_later s t (inr (inl e)) (inr (inr f)) = rw e (rw f (omega arith, omega arith))
place_of_later s t (inr (inr e)) (inl f) = rw e (rw f (omega arith, omega arith))
place_of_later s t (inr (inr e)) (inr (inl f)) = rw e (rw f (omega arith, omega arith))
place_of_later s t (inr (inr e)) (inr (inr f)) = rw e (rw f (omega arith, λ _. refl))

IsHigher-ltb : (p q : Priority) → priority_ltb q p ≡ true → IsHigher p q
unfolding priority_ltb pos_part neg_part
IsHigher-ltb (at_least_zero n) (at_least_zero m) h = ground arith
IsHigher-ltb (at_least_zero n) (below_zero m) h = tt
IsHigher-ltb (below_zero n) (at_least_zero m) h = absurd (ground arith)
IsHigher-ltb (below_zero n) (below_zero m) h = ground arith

same_priority : (p q : Priority) → priority_ltb q p ≡ false → priority_ltb p q ≡ false → p ≡ q
unfolding priority_ltb pos_part neg_part
same_priority (at_least_zero n) (at_least_zero m) h k =
    let e : n ≡ m = ground arith in ap at_least_zero e
same_priority (at_least_zero n) (below_zero m) h k = absurd (ground arith)
same_priority (below_zero n) (at_least_zero m) h k = absurd (ground arith)
same_priority (below_zero n) (below_zero m) h k = let e : n ≡ m = ground arith in ap below_zero e

precedes_cases :
    (a b : LandingJob)
    → precedes a b ≡ true
    → (rank_of b.status < rank_of a.status)
      ⊎ ((rank_of a.status ≡ rank_of b.status)
          × ((priority_ltb b.priority a.priority ≡ true)
              ⊎ ((priority_ltb b.priority a.priority ≡ false)
                  × (priority_ltb a.priority b.priority ≡ false)
                  × (a.created_at ≤ b.created_at))))
unfolding precedes
precedes_cases a b h = ground arith

-- Of two waiting jobs the one that the query puts first comes first.
pub precedes-ComesBefore :
    (repositories : Option (List String)) (grace_seconds now : ℕ) (a b : LandingJob)
    → IsWaiting repositories grace_seconds now a
    → IsWaiting repositories grace_seconds now b
    → precedes a b ≡ true
    → ComesBefore a b
unfolding Waits
precedes-ComesBefore repositories grace_seconds now a b v w h =
    let (later, same) = place_of_later a.status b.status v.has_status w.has_status in
    elim (precedes_cases a b h) [
      | inl l ↦ inl (later l)
      | inr (e, inl p) ↦ inr (same e, inl (IsHigher-ltb a.priority b.priority p))
      | inr (e, inr (p, q, c)) ↦ inr (same e, inr (same_priority a.priority b.priority p q, c))
    ]

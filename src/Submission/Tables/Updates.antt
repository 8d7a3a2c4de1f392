-- ===== src/Submission/Tables/Updates.antt =====
-- The updates of the association rows of a new job, which stand behind the others.
use lando_api.Common.{
  inr, inl, Bool-cases, ==-refl, true, sym, refl, ap, ◌∙◌, nat_eq, false, ◌&&◌, ==-ne, ◌≡◌, ◌++◌,
  ◌==◌, All, [], ◌≢◌, map, ◌∷◌, ℕ, List,
}
use lando_api.Submission.Tables.{execute_updates, update_association, Association}

-- No row is of the job.
abbrev pub IsUnused : ℕ → List Association → Type 0
IsUnused job rows = All (λ a. a.landing_job_id ≢ job) rows

abbrev pub NoRepeat : List ℕ → Type 0
NoRepeat [] = Unit
NoRepeat (x ∷ xs) = All (λ y. y ≢ x) xs × NoRepeat xs

-- The rows are those of the keys of the updates, in their order, and the updates keep that.
abbrev pub IsAligned :
    (job : ℕ) → List (ℕ × (Association → Association)) → List Association → Type 0
IsAligned job [] [] = Unit
IsAligned job [] (a ∷ rows) = ⊥
IsAligned job (u ∷ updates) [] = ⊥
IsAligned job (u ∷ updates) (a ∷ rows) =
    (a.landing_job_id ≡ job)
    × (a.revision_id ≡ u.0)
    × ((u.1 a).revision_id ≡ u.0)
    × IsAligned job updates rows

abbrev pub applied : List (ℕ × (Association → Association)) → List Association → List Association
applied [] rows = rows
applied (u ∷ updates) [] = []
applied (u ∷ updates) (a ∷ rows) = u.1 a ∷ applied updates rows

abbrev pub keys_of : List (ℕ × (Association → Association)) → List ℕ
keys_of updates = map (λ u. u.0) updates

-- The row of another revision, or of another job, is passed over.
abbrev Misses : ℕ → Association → ℕ → Type 0
Misses job a key = (a.landing_job_id == job && a.revision_id == key) ≡ false

skip :
    (job : ℕ) (updates : List (ℕ × (Association → Association))) (a : Association)
    (rows : List Association)
    → All (Misses job a) (keys_of updates)
    → execute_updates job updates (a ∷ rows) ≡ a ∷ execute_updates job updates rows
unfolding execute_updates update_association
skip job [] a rows h = refl
skip job (u ∷ updates) a rows h =
    rw (h.0, update_association) (skip job updates a (update_association job u.0 u.1 rows) h.1)

other_job :
    (job : ℕ) (a : Association) (keys : List ℕ) → a.landing_job_id ≢ job → All (Misses job a) keys
other_job job a [] n = tt
other_job job a (key ∷ keys) n =
    let f = ==-ne a.landing_job_id job n in (rw f refl, other_job job a keys n)

execute_updates-unused :
    (job : ℕ) (updates : List (ℕ × (Association → Association))) (front rows : List Association)
    → IsUnused job front
    → execute_updates job updates (front ++ rows) ≡ front ++ execute_updates job updates rows
execute_updates-unused job updates [] rows h = refl
execute_updates-unused job updates (a ∷ front) rows h =
    skip job updates a (front ++ rows) (other_job job a (keys_of updates) h.0)
    ∙ ap (λ l. a ∷ l) (execute_updates-unused job updates front rows h.1)

update_association-other :
    (job key : ℕ) (f : Association → Association) (updates : List (ℕ × (Association → Association)))
    (rows : List Association)
    → All (λ k. k ≢ key) (keys_of updates)
    → IsAligned job updates rows
    → update_association job key f rows ≡ rows
unfolding update_association
update_association-other job key f [] [] h k = refl
update_association-other job key f [] (a ∷ rows) h k = absurd k
update_association-other job key f (u ∷ updates) [] h k = absurd k
update_association-other job key f (u ∷ updates) (a ∷ rows) h k =
    let n : (a.revision_id == key) ≡ false = ==-ne a.revision_id key (λ e. h.0 (sym k.1 ∙ e)) in
    let o : (a.landing_job_id == job) ≡ true = ap (λ i. i == job) k.0 ∙ ==-refl job in
    rw o (rw n (ap (λ l. a ∷ l) (update_association-other job key f updates rows h.1 k.3)))

other_keys :
    (job key : ℕ) (a : Association) (keys : List ℕ)
    → a.revision_id ≡ key
    → All (λ k. k ≢ key) keys
    → All (Misses job a) keys
other_keys job key a [] e h = tt
other_keys job key a (k ∷ keys) e h =
    let f : (a.revision_id == k) ≡ false = ==-ne a.revision_id k (λ q. h.0 (sym q ∙ e)) in
    (
      elim (Bool-cases (a.landing_job_id == job)) [ inl t ↦ rw t f | inr t ↦ rw t refl ],
      other_keys job key a keys e h.1,
    )

execute_updates-applied :
    (job : ℕ) (updates : List (ℕ × (Association → Association))) (rows : List Association)
    → NoRepeat (keys_of updates)
    → IsAligned job updates rows
    → execute_updates job updates rows ≡ applied updates rows
unfolding execute_updates update_association
execute_updates-applied job [] rows h k = refl
execute_updates-applied job (u ∷ updates) [] h k = absurd k
execute_updates-applied job (u ∷ updates) (a ∷ rows) h k =
    let o : (a.landing_job_id == job) ≡ true = ap (λ i. i == job) k.0 ∙ ==-refl job in
    let n : (a.revision_id == u.0) ≡ true = ap (λ i. i == u.0) k.1 ∙ ==-refl u.0 in
    let first : update_association job u.0 u.1 (a ∷ rows) ≡ u.1 a ∷ rows =
      rw (o, update_association)
        (rw (n, update_association)
          (ap (λ l. u.1 a ∷ l) (update_association-other job u.0 u.1 updates rows h.0 k.3))) in
    ap (execute_updates job updates) first
    ∙ skip job updates (u.1 a) rows (other_keys job u.0 (u.1 a) (keys_of updates) k.2 h.0)
    ∙ ap (λ l. u.1 a ∷ l) (execute_updates-applied job updates rows h.1 k.3)

pub updated :
    (job : ℕ) (updates : List (ℕ × (Association → Association))) (front rows : List Association)
    → IsUnused job front
    → NoRepeat (keys_of updates)
    → IsAligned job updates rows
    → execute_updates job updates (front ++ rows) ≡ front ++ applied updates rows
updated job updates front rows f h k =
    execute_updates-unused job updates front rows f
    ∙ ap (λ l. front ++ l) (execute_updates-applied job updates rows h k)

-- ===== src/Submission/Tables/Landed.antt =====
-- What a new job shows of its revisions.
use lando_api.Submission.Tables.{
  rows_at, with_revisions, diff_of, in_order, Association, insert_association, dated, indexed,
  add_revisions, order_by_index, revision_keys, associated, without_repetition,
}
use lando_api.Common.{
  sym, arith, ◌≢◌, All-imp, nat_eq, refl, keep_whole, ==-ne, not, true, ==-refl, ◌∙◌, [],
  keep-append, ap, suc, ◌==◌, ◌++◌, some, ◌∷◌, none, map, keep, ◌≡◌, Option, ℕ, List,
}
use lando_api.Landing.Revision.{Revision}
use lando_api.Submission.Tables.Updates.{keys_of, applied, IsUnused, IsAligned, NoRepeat}
use lando_api.Landing.Job.{LandingJob}

abbrev pub row : (job key : ℕ) → Option ℕ × Option ℕ → Association
row job key values = record {
  landing_job_id = job;
  revision_id = key;
  index = values.0;
  diff_id = values.1;
}

-- The rows of a job for revisions, with the index and the diff that `g` gives a place and a revision.
abbrev pub rows_with :
    (job : ℕ) (g : ℕ → ℕ → Option ℕ × Option ℕ) (place : ℕ) → List ℕ → List Association
rows_with job g place [] = []
rows_with job g place (key ∷ keys) = row job key (g place key) ∷ rows_with job g (suc place) keys

abbrev pub no_values : ℕ → ℕ → Option ℕ × Option ℕ
no_values place key = (none, none)

abbrev pub places : ℕ → ℕ → Option ℕ × Option ℕ
places place key = (some place, none)

abbrev pub diffs_of : List Revision → ℕ → ℕ → Option ℕ × Option ℕ
diffs_of revisions place key = (some place, diff_of revisions key)

pub add_revisions-rows :
    (job i : ℕ) (keys : List ℕ) → add_revisions job keys ≡ rows_with job no_values i keys
unfolding add_revisions
add_revisions-rows job i [] = refl
add_revisions-rows job i (key ∷ keys) =
    ap (λ l. row job key (no_values i key) ∷ l) (add_revisions-rows job (suc i) keys)

pub applied-indexed :
    (job i : ℕ) (keys : List ℕ)
    → applied (indexed i keys) (rows_with job no_values i keys) ≡ rows_with job places i keys
unfolding indexed
applied-indexed job i [] = refl
applied-indexed job i (key ∷ keys) =
    ap (λ l. row job key (places i key) ∷ l) (applied-indexed job (suc i) keys)

pub applied-dated :
    (job i : ℕ) (revisions : List Revision) (keys : List ℕ)
    → applied (dated revisions keys) (rows_with job places i keys)
      ≡ rows_with job (diffs_of revisions) i keys
unfolding dated
applied-dated job i revisions [] = refl
applied-dated job i revisions (key ∷ keys) =
    ap (λ l. row job key (diffs_of revisions i key) ∷ l) (applied-dated job (suc i) revisions keys)

pub indexed-IsAligned :
    (job i : ℕ) (keys : List ℕ) → IsAligned job (indexed i keys) (rows_with job no_values i keys)
unfolding indexed
indexed-IsAligned job i [] = tt
indexed-IsAligned job i (key ∷ keys) = (refl, refl, refl, indexed-IsAligned job (suc i) keys)

pub dated-IsAligned :
    (job i : ℕ) (revisions : List Revision) (keys : List ℕ)
    → IsAligned job (dated revisions keys) (rows_with job places i keys)
unfolding dated
dated-IsAligned job i revisions [] = tt
dated-IsAligned job i revisions (key ∷ keys) =
    (refl, refl, refl, dated-IsAligned job (suc i) revisions keys)

pub keys_of-indexed : (i : ℕ) (keys : List ℕ) → keys_of (indexed i keys) ≡ keys
unfolding indexed
keys_of-indexed i [] = refl
keys_of-indexed i (key ∷ keys) = ap (λ l. key ∷ l) (keys_of-indexed (suc i) keys)

pub keys_of-dated :
    (revisions : List Revision) (keys : List ℕ) → keys_of (dated revisions keys) ≡ keys
unfolding dated
keys_of-dated revisions [] = refl
keys_of-dated revisions (key ∷ keys) = ap (λ l. key ∷ l) (keys_of-dated revisions keys)

-- Each row stands before the next.
abbrev pub Orders : (ℕ → ℕ → Option ℕ × Option ℕ) → Type 0
Orders g =
    (job i key next : ℕ) → in_order (row job key (g i key)) (row job next (g (suc i) next)) ≡ true

order_by_index-rows :
    (job : ℕ) (g : ℕ → ℕ → Option ℕ × Option ℕ) (i : ℕ) (keys : List ℕ)
    → Orders g
    → order_by_index (rows_with job g i keys) ≡ rows_with job g i keys
unfolding order_by_index insert_association
order_by_index-rows job g i [] h = refl
order_by_index-rows job g i (key ∷ []) h = refl
order_by_index-rows job g i (key ∷ next ∷ keys) h =
    rw (order_by_index-rows job g (suc i) (next ∷ keys) h) (rw (h job i key next) refl)

keep-rows :
    (job : ℕ) (g : ℕ → ℕ → Option ℕ × Option ℕ) (i : ℕ) (keys : List ℕ)
    → keep (λ a. a.landing_job_id == job) (rows_with job g i keys) ≡ rows_with job g i keys
keep-rows job g i [] = refl
keep-rows job g i (key ∷ keys) =
    rw (==-refl job) (ap (λ l. row job key (g i key) ∷ l) (keep-rows job g (suc i) keys))

pub keep-IsUnused :
    (job : ℕ) (rows : List Association)
    → IsUnused job rows
    → keep (λ a. a.landing_job_id == job) rows ≡ []
keep-IsUnused job [] h = refl
keep-IsUnused job (a ∷ rows) h = rw (==-ne a.landing_job_id job h.0) (keep-IsUnused job rows h.1)

-- The rows of the job are found behind those of the others, in their order.
pub associated-rows :
    (job : ℕ) (g : ℕ → ℕ → Option ℕ × Option ℕ) (i : ℕ) (keys : List ℕ) (front : List Association)
    → IsUnused job front
    → Orders g
    → associated job (front ++ rows_with job g i keys) ≡ rows_with job g i keys
unfolding associated
associated-rows job g i keys front f h =
    ap order_by_index (
      keep-append (λ a. a.landing_job_id == job) front (rows_with job g i keys)
      ∙ ap (λ l. l ++ keep (λ a. a.landing_job_id == job) (rows_with job g i keys))
          (keep-IsUnused job front f)
      ∙ keep-rows job g i keys)
    ∙ order_by_index-rows job g i keys h

without_repetition-NoRepeat : (keys : List ℕ) → NoRepeat keys → without_repetition keys ≡ keys
unfolding without_repetition
without_repetition-NoRepeat [] h = refl
without_repetition-NoRepeat (key ∷ keys) h =
    ap (λ l. key ∷ keep (λ y. not (y == key)) l) (without_repetition-NoRepeat keys h.1)
    ∙ ap (λ l. key ∷ l)
        (keep_whole (λ y. not (y == key)) keys
          (All-imp (λ y. y ≢ key) (λ y. not (y == key) ≡ true) keys (λ y n. rw (==-ne y key n) refl)
            h.0))

revision_ids-rows :
    (job : ℕ) (g : ℕ → ℕ → Option ℕ × Option ℕ) (i : ℕ) (keys : List ℕ)
    → map (λ a. a.revision_id) (rows_with job g i keys) ≡ keys
revision_ids-rows job g i [] = refl
revision_ids-rows job g i (key ∷ keys) = ap (λ l. key ∷ l) (revision_ids-rows job g (suc i) keys)

pub revision_keys-rows :
    (job : ℕ) (g : ℕ → ℕ → Option ℕ × Option ℕ) (i : ℕ) (keys : List ℕ) (front : List Association)
    → IsUnused job front
    → Orders g
    → NoRepeat keys
    → revision_keys job (front ++ rows_with job g i keys) ≡ keys
unfolding revision_keys
revision_keys-rows job g i keys front f h n =
    ap (λ l. without_repetition (map (λ a. a.revision_id) l))
      (associated-rows job g i keys front f h)
    ∙ ap without_repetition (revision_ids-rows job g i keys)
    ∙ without_repetition-NoRepeat keys n

pub no_values-Orders : Orders no_values
unfolding in_order
no_values-Orders job i key next = refl

pub places-Orders : Orders places
unfolding in_order
places-Orders job i key next = ground arith

pub diffs_of-Orders : (revisions : List Revision) → Orders (diffs_of revisions)
unfolding in_order
diffs_of-Orders revisions job i key next = ground arith

pub rows_with-IsUnused :
    (id job : ℕ) (g : ℕ → ℕ → Option ℕ × Option ℕ) (i : ℕ) (keys : List ℕ)
    → id ≢ job
    → IsUnused id (rows_with job g i keys)
rows_with-IsUnused id job g i [] n = tt
rows_with-IsUnused id job g i (key ∷ keys) n =
    ((λ e. n (sym e)), rows_with-IsUnused id job g (suc i) keys n)

-- The rows of other jobs change nothing that is read of a job.
pub with_revisions-same :
    (revisions : List Revision) (rows more : List Association) (job : LandingJob)
    → keep (λ a. a.landing_job_id == job.id) (rows ++ more)
      ≡ keep (λ a. a.landing_job_id == job.id) rows
    → with_revisions revisions (rows ++ more) job ≡ with_revisions revisions rows job
unfolding with_revisions revision_keys associated
with_revisions-same revisions rows more job e =
    ap
      (λ l. record job {
        revisions =
            rows_at (without_repetition (map (λ a. a.revision_id) (order_by_index l))) revisions;
      })
      e

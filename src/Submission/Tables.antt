-- ===== src/Submission/Tables.antt =====
-- The tables that a submission writes: landoapi/models/landing_job.py and landoapi/models/revisions.py.
-- A row object of the program is read through its primary key. A job row has its revisions in the
-- association table `revision_landing_job`; older jobs have them in a legacy column.
pub mod Landed
pub mod Updates
pub mod Rows
pub mod Shown
use lando_api.Common.{
  leb, elem, true, is_some, some, length, option_eq, nat_eq, ◌&&◌, suc, not, String, if◌then◌else◌,
  find, none, any, ◌==◌, keep, [], ◌∷◌, map, ℕ, Bool, List, Option,
}
use lando_api.Common.Exec.{value_error, raised, returned, Exec}
use lando_api.Landing.Revision.{Revision}
use lando_api.Landing.Job.{has_revision, LandingJob}

pub record Association : Type 0 where
  pub landing_job_id : ℕ
  pub revision_id : ℕ
  pub index : Option ℕ
  pub diff_id : Option ℕ

-- The next primary keys are those of the sequences of the database. `sent` are the tasks that were
-- queued to remove a project from a revision.
pub record JobTables : Type 0 where
  pub revisions : List Revision
  pub jobs : List LandingJob
  pub associations : List Association
  pub next_revision : ℕ
  pub next_job : ℕ
  pub sent : List (String × String)

-- `Revision.get_from_revision_id`
unfoldable pub get_from_revision_id : ℕ → List Revision → Option Revision
get_from_revision_id revision_id rows = find (λ r. r.revision_id == some revision_id) rows

unfoldable pub update_revision : ℕ → (Revision → Revision) → List Revision → List Revision
update_revision id f rows = map (λ r. if r.id == id then f r else r) rows

unfoldable pub revision_at : ℕ → List Revision → Option Revision
revision_at id rows = find (λ r. r.id == id) rows

rows_at : List ℕ → List Revision → List Revision
unfolding revision_at
rows_at [] rows = []
rows_at (id ∷ ids) rows = elim (revision_at id rows) [
  | none ↦ rows_at ids rows
  | some r ↦ r ∷ rows_at ids rows
]

-- `order_by="revision_landing_job.columns.index"`: NULL stands behind every index.
unfoldable pub in_order : Association → Association → Bool
in_order a b = elim a.index [
  | none ↦ not (is_some b.index)
  | some i ↦ elim b.index [ none ↦ true | some j ↦ leb i j ]
]

insert_association : Association → List Association → List Association
insert_association a [] = a ∷ []
insert_association a (b ∷ bs) =
    let rest = b ∷ insert_association a bs in if in_order a b then a ∷ b ∷ bs else rest

order_by_index : List Association → List Association
unfolding insert_association
order_by_index [] = []
order_by_index (a ∷ rest) = insert_association a (order_by_index rest)

-- The association rows of a job, in the order of the relationship.
unfoldable pub associated : ℕ → List Association → List Association
unfolding order_by_index
associated id rows = order_by_index (keep (λ a. a.landing_job_id == id) rows)

-- A relationship holds each object once.
without_repetition : List ℕ → List ℕ
without_repetition [] = []
without_repetition (x ∷ xs) = x ∷ keep (λ y. not (y == x)) (without_repetition xs)

-- The keys of `job.revisions`.
unfoldable pub revision_keys : ℕ → List Association → List ℕ
unfolding without_repetition
revision_keys id rows = without_repetition (map (λ a. a.revision_id) (associated id rows))

-- The jobs with their revisions.
unfoldable pub with_revisions : List Revision → List Association → LandingJob → LandingJob
unfolding rows_at
with_revisions revisions associations job = record job {
  revisions = rows_at (revision_keys job.id associations) revisions;
}

unfoldable pub loaded : JobTables → List LandingJob
unfolding with_revisions
loaded t = map (with_revisions t.revisions t.associations) t.jobs

-- `LandingJob.revisions_query`
unfoldable pub revisions_query : List (Option ℕ) → List LandingJob → List LandingJob
revisions_query ids jobs = keep (has_revision ids) jobs

-- `add_revisions`: a row for each revision.
unfoldable pub add_revisions : ℕ → List ℕ → List Association
add_revisions job [] = []
add_revisions job (key ∷ keys) =
    record { landing_job_id = job; revision_id = key; index = none; diff_id = none }
    ∷ add_revisions job keys

unfoldable pub update_association :
    (job key : ℕ) → (Association → Association) → List Association → List Association
update_association job key f rows =
    map (λ a. if a.landing_job_id == job && a.revision_id == key then f a else a) rows

-- The updates of a loop over the revisions of a job, one after the other.
unfoldable pub execute_updates :
    (job : ℕ) → List (ℕ × (Association → Association)) → List Association → List Association
unfolding update_association
execute_updates job [] rows = rows
execute_updates job ((key, f) ∷ updates) rows =
    execute_updates job updates (update_association job key f rows)

-- `.values(index=index)` for each of `enumerate(revisions)`
unfoldable pub indexed : (index : ℕ) → List ℕ → List (ℕ × (Association → Association))
indexed index [] = []
indexed index (key ∷ keys) = (key, λ a. record a { index = some index }) ∷ indexed (suc index) keys

unfoldable pub sort_revisions : (job : ℕ) → List ℕ → Exec JobTables Unit
unfolding execute_updates indexed
sort_revisions job keys t =
    if length keys == length (revision_keys job t.associations)
    then (
      returned tt,
      record t { associations = execute_updates job (indexed 0 keys) t.associations },
    )
    else (raised (value_error "List of revisions does not match associated revisions"), t)

-- `revision.diff_id`
unfoldable pub diff_of : List Revision → ℕ → Option ℕ
unfolding revision_at
diff_of rows key = elim (revision_at key rows) [ none ↦ none | some r ↦ r.diff_id ]

-- `.values(diff_id=revision.diff_id)` for each revision
unfoldable pub dated : List Revision → List ℕ → List (ℕ × (Association → Association))
unfolding diff_of
dated revisions keys = map (λ key. (key, λ a. record a { diff_id = diff_of revisions key })) keys

unfoldable pub set_landed_revision_diffs : (job : ℕ) → JobTables → JobTables
unfolding execute_updates dated
set_landed_revision_diffs job t = record t {
  associations =
      execute_updates job (dated t.revisions (revision_keys job t.associations)) t.associations;
}

-- `d[key] = value` on a dict in insertion order.
set_item : Option ℕ × Option ℕ → List (Option ℕ × Option ℕ) → List (Option ℕ × Option ℕ)
set_item p [] = p ∷ []
set_item p (q ∷ items) = let rest = q ∷ set_item p items in if q.0 == p.0 then p ∷ items else rest

dict_of : List (Option ℕ × Option ℕ) → List (Option ℕ × Option ℕ) → List (Option ℕ × Option ℕ)
unfolding set_item
dict_of items [] = items
dict_of items (p ∷ rest) = dict_of (set_item p items) rest

landed_rows : List Revision → List Association → List (Option ℕ × Option ℕ)
landed_rows revisions [] = []
landed_rows revisions (a ∷ rows) = elim (revision_at a.revision_id revisions) [
  | none ↦ landed_rows revisions rows
  | some r ↦ (r.revision_id, a.diff_id) ∷ landed_rows revisions rows
]

-- The items of `landed_revisions`.
unfoldable pub landed_revisions : (job : ℕ) → JobTables → List (Option ℕ × Option ℕ)
unfolding dict_of landed_rows
landed_revisions job t = dict_of [] (landed_rows t.revisions (associated job t.associations))

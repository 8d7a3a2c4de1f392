-- ===== src/Submission/Tables/Rows.antt =====
-- The rows of revisions under the updates of a request.
use lando_api.Common.{
  option_eq, sym, All-map, arith, find-All, false, find, true, nat_eq, refl, ==-refl, find-true, ap,
  if◌then◌else◌, ==-eq, subst, [], ◌++◌, ◌∷◌, some, inr, ◌∙◌, inl, ◌==◌, Bool-cases, ==-ne, ◌<◌,
  ◌≢◌, All, ◌≡◌, List, map, ℕ,
}
use lando_api.Submission.Tables.{update_revision, get_from_revision_id, JobTables, revision_at}
use lando_api.Submission.Tables.Updates.{NoRepeat}
use lando_api.Landing.Revision.{Revision}
use lando_api.Submission.Tables.Shown.{HasRow}

-- No two rows have one key, and the next key is above them.
abbrev pub IsSound : JobTables → Type 0
IsSound t =
    NoRepeat (map (λ r. r.id) t.revisions)
    × All (λ i. i < t.next_revision) (map (λ r. r.id) t.revisions)

revision_at-id :
    (key : ℕ) (rows : List Revision) (r : Revision) → revision_at key rows ≡ some r → r.id ≡ key
unfolding revision_at
revision_at-id key rows r e = ==-eq r.id key (find-true (λ r. r.id == key) rows e)

pub revision_at-update :
    (k key : ℕ) (f : Revision → Revision) (rows : List Revision) (r : Revision)
    → ((x : Revision) → (f x).id ≡ x.id)
    → revision_at k rows ≡ some r
    → revision_at k (update_revision key f rows) ≡ some (if k == key then f r else r)
unfolding revision_at update_revision
revision_at-update k key f [] r h e = cc
revision_at-update k key f (x ∷ rows) r h e = elim (Bool-cases (x.id == k)) [
  | inl t ↦
      let same : some x ≡ some r = rw t at e in
      let x_r : x ≡ r = cc in
      let k_x : x.id ≡ k = ==-eq x.id k t in
      elim (Bool-cases (x.id == key)) [
        | inl u ↦
            let v : (k == key) ≡ true = subst (λ i. (i == key) ≡ true) k_x u in
            let w : ((f x).id == k) ≡ true = ap (λ i. i == k) (h x) ∙ t in
            rw u (rw w (rw v (ap (λ y. some (f y)) x_r)))
        | inr u ↦
            let v : (k == key) ≡ false = subst (λ i. (i == key) ≡ false) k_x u in
            rw u (rw t (rw v (ap some x_r)))
      ]
  | inr t ↦
      let rest = revision_at-update k key f rows r h (rw t at e) in
      elim (Bool-cases (x.id == key)) [
        | inl u ↦ let w : ((f x).id == k) ≡ false = ap (λ i. i == k) (h x) ∙ t in rw u (rw w rest)
        | inr u ↦ rw u (rw t rest)
      ]
]

-- An update that keeps both ids keeps what a row has.
pub HasRow-update :
    (k key a b : ℕ) (f : Revision → Revision) (rows : List Revision)
    → ((x : Revision)
        → ((f x).id ≡ x.id) × ((f x).revision_id ≡ x.revision_id) × ((f x).diff_id ≡ x.diff_id))
    → HasRow rows k a b
    → HasRow (update_revision key f rows) k a b
HasRow-update k key a b f rows h (r, e, p, q) =
    let u = revision_at-update k key f rows r (λ x. (h x).0) e in
    elim (Bool-cases (k == key)) [
      | inl t ↦ (f r, (rw t at u), (h r).1 ∙ p, (h r).2 ∙ q)
      | inr t ↦ (r, (rw t at u), p, q)
    ]

-- An update of another row keeps what a row has.
pub HasRow-other :
    (k key a b : ℕ) (f : Revision → Revision) (rows : List Revision)
    → ((x : Revision) → (f x).id ≡ x.id)
    → k ≢ key
    → HasRow rows k a b
    → HasRow (update_revision key f rows) k a b
HasRow-other k key a b f rows h n (r, e, p, q) =
    let u = revision_at-update k key f rows r h e in (r, (rw (==-ne k key n) at u), p, q)

pub ids-update :
    (key : ℕ) (f : Revision → Revision) (rows : List Revision)
    → ((x : Revision) → (f x).id ≡ x.id)
    → map (λ r. r.id) (update_revision key f rows) ≡ map (λ r. r.id) rows
unfolding update_revision
ids-update key f [] h = refl
ids-update key f (x ∷ rows) h = elim (Bool-cases (x.id == key)) [
  | inl t ↦ rw t (rw (h x) (ap (λ l. x.id ∷ l) (ids-update key f rows h)))
  | inr t ↦ rw t (ap (λ l. x.id ∷ l) (ids-update key f rows h))
]

-- The row that a revision id finds is the row of its key.
pub get_from_revision_id-row :
    (revision_id : ℕ) (rows : List Revision) (row : Revision)
    → NoRepeat (map (λ r. r.id) rows)
    → get_from_revision_id revision_id rows ≡ some row
    → (revision_at row.id rows ≡ some row) × (row.revision_id ≡ some revision_id)
unfolding get_from_revision_id revision_at
get_from_revision_id-row revision_id [] row h e = cc
get_from_revision_id-row revision_id (x ∷ rows) row h e =
    elim (Bool-cases (x.revision_id == some revision_id)) [
      | inl t ↦
          let same : some x ≡ some row = rw t at e in
          let x_row : x ≡ row = cc in
          subst
            (λ y.
              (find (λ r. r.id == y.id) (x ∷ rows) ≡ some y) × (y.revision_id ≡ some revision_id))
            x_row (rw (==-refl x.id) refl, ==-eq x.revision_id (some revision_id) t)
      | inr t ↦
          let later : find (λ r. r.revision_id == some revision_id) rows ≡ some row = rw t at e in
          let (found, k) = get_from_revision_id-row revision_id rows row h.1 later in
          let n =
            find-All (λ r. r.id ≢ x.id) (λ r. r.revision_id == some revision_id) rows
              (All-map (λ r. r.id) (λ i. i ≢ x.id) rows h.0) later in
          let f : (x.id == row.id) ≡ false = ==-ne x.id row.id (λ q. n (sym q)) in (rw f found, k)
    ]

pub revision_at-append :
    (k : ℕ) (rows more : List Revision) (r : Revision)
    → revision_at k rows ≡ some r
    → revision_at k (rows ++ more) ≡ some r
unfolding revision_at
revision_at-append k [] more r e = cc
revision_at-append k (x ∷ rows) more r e = elim (Bool-cases (x.id == k)) [
  | inl t ↦ rw t (rw t at e)
  | inr t ↦ rw t (revision_at-append k rows more r (rw t at e))
]

pub revision_at-last :
    (rows : List Revision) (row : Revision)
    → All (λ i. i < row.id) (map (λ r. r.id) rows)
    → revision_at row.id (rows ++ row ∷ []) ≡ some row
unfolding revision_at
revision_at-last [] row h = rw (==-refl row.id) refl
revision_at-last (x ∷ rows) row h =
    let f : (x.id == row.id) ≡ false = ==-ne x.id row.id (λ e. let l = h.0 in omega arith) in
    rw f (revision_at-last rows row h.1)

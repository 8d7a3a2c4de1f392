-- ===== src/Submission/Post/Path.antt =====
-- The path that a new job shows.
use lando_api.Common.{
  nat_eq, ==-refl, true, ◌==◌, length, subst, ◌∙◌, ap, sym, refl, [], none, map, ◌≢◌, some, ◌++◌,
  All, ◌∷◌, ◌≡◌, List, ℕ,
}
use lando_api.Submission.Post.{submit_job, update_job, write_approved}
use lando_api.Submission.Tables.{
  revision_keys, dated, landed_revisions, sort_revisions, set_landed_revision_diffs, revision_at,
  add_revisions, indexed, update_revision, execute_updates, Association, JobTables,
}
use lando_api.Landing.Revision.{Revision}
use lando_api.Submission.Tables.Shown.{landed_revisions-shown, shown, Distinct, HasRow, HasRows}
use lando_api.Submission.Tables.Updates.{updated, IsUnused, NoRepeat}
use lando_api.Submission.Tables.Landed.{
  applied-dated, dated-IsAligned, keys_of-dated, no_values-Orders, places-Orders,
  revision_keys-rows, diffs_of, applied-indexed, indexed-IsAligned, keys_of-indexed,
  add_revisions-rows, places, no_values, rows_with,
}
use lando_api.Submission.Tables.Rows.{HasRow-update}
use lando_api.Landing.Job.{submitted}
use lando_api.Common.Exec.{returned}

HasRows-update :
    (key : ℕ) (f : Revision → Revision) (rows : List Revision) (keys : List ℕ)
    (pairs : List (ℕ × ℕ))
    → ((x : Revision)
        → ((f x).id ≡ x.id) × ((f x).revision_id ≡ x.revision_id) × ((f x).diff_id ≡ x.diff_id))
    → HasRows rows keys pairs
    → HasRows (update_revision key f rows) keys pairs
HasRows-update key f rows [] [] h k = tt
HasRows-update key f rows [] (p ∷ pairs) h k = absurd k
HasRows-update key f rows (k' ∷ keys) [] h k = absurd k
HasRows-update key f rows (k' ∷ keys) (p ∷ pairs) h k =
    (HasRow-update k' key p.0 p.1 f rows h k.0, HasRows-update key f rows keys pairs h k.1)

write_approved-HasRows :
    (prepared : List (ℕ × List ℕ)) (rows : List Revision) (keys : List ℕ) (pairs : List (ℕ × ℕ))
    → HasRows rows keys pairs
    → HasRows (write_approved prepared rows) keys pairs
unfolding write_approved
write_approved-HasRows [] rows keys pairs h = h
write_approved-HasRows (m ∷ prepared) rows keys pairs h =
    let f = λ (r : Revision). record r { approved_by = some m.1; peers_and_owners = none } in
    write_approved-HasRows prepared (update_revision m.0 f rows) keys pairs
      (HasRows-update m.0 f rows keys pairs (λ x. (refl, refl, refl)) h)

-- Rows with other revision ids have other keys.
others_differ :
    (rows : List Revision) (key a b : ℕ) (keys : List ℕ) (pairs : List (ℕ × ℕ))
    → HasRow rows key a b
    → HasRows rows keys pairs
    → All (λ q. q.0 ≢ a) pairs
    → All (λ k. k ≢ key) keys
others_differ rows key a b [] [] x h n = tt
others_differ rows key a b [] (p ∷ pairs) x h n = absurd h
others_differ rows key a b (k ∷ keys) [] x h n = absurd h
others_differ rows key a b (k ∷ keys) (p ∷ pairs) x h n = (
  (λ e.
      let (r, f, i, j) = x in
      let (r', f', i', j') = h.0 in
      let g : revision_at key rows ≡ some r' = rw e at f' in
      let one : some r ≡ some r' = sym f ∙ g in
      let same : r ≡ r' = cc in
      let ids : some p.0 ≡ some a = sym i' ∙ sym (ap (λ y. y.revision_id) same) ∙ i in n.0 (cc)),
  others_differ rows key a b keys pairs x h.1 n.1,
)

HasRows-NoRepeat :
    (rows : List Revision) (keys : List ℕ) (pairs : List (ℕ × ℕ))
    → HasRows rows keys pairs
    → Distinct pairs
    → NoRepeat keys
HasRows-NoRepeat rows [] [] h d = tt
HasRows-NoRepeat rows [] (p ∷ pairs) h d = absurd h
HasRows-NoRepeat rows (k ∷ keys) [] h d = absurd h
HasRows-NoRepeat rows (k ∷ keys) (p ∷ pairs) h d =
    (others_differ rows k p.0 p.1 keys pairs h.0 h.1 d.0, HasRows-NoRepeat rows keys pairs h.1 d.1)

-- The tables behind `submit_job`, if the number of revisions is right.
unfoldable pub submitted_tables : (job : ℕ) → List (ℕ × List ℕ) → JobTables → JobTables
submitted_tables job prepared s = set_landed_revision_diffs job (record s {
  associations = execute_updates job (indexed 0 (map (λ m. m.0) prepared)) s.associations;
  revisions = write_approved prepared s.revisions;
  jobs = update_job job (λ j. record j { status = some submitted }) s.jobs;
})

module _ (job : ℕ) (prepared : List (ℕ × List ℕ)) (s : JobTables) (front : List Association)
    (pairs : List (ℕ × ℕ))
    (e : s.associations ≡ front ++ add_revisions job (map (λ m. m.0) prepared))
    (unused : IsUnused job front) (rows : HasRows s.revisions (map (λ m. m.0) prepared) pairs)
    (distinct : Distinct pairs) where
  new_rows : s.associations ≡ front ++ rows_with job no_values 0 (map (λ m. m.0) prepared)
  new_rows = e ∙ ap (λ l. front ++ l) (add_revisions-rows job 0 (map (λ m. m.0) prepared))

  once : NoRepeat (map (λ m. m.0) prepared)
  once = HasRows-NoRepeat s.revisions (map (λ m. m.0) prepared) pairs rows distinct

  pub submit_job-returned :
      submit_job job prepared s ≡ (returned tt, submitted_tables job prepared s)
  unfolding submit_job sort_revisions submitted_tables
  submit_job-returned =
      let keys = map (λ (m : ℕ × List ℕ). m.0) prepared in
      let same : revision_keys job s.associations ≡ keys =
        ap (revision_keys job) new_rows
        ∙ revision_keys-rows job no_values 0 keys front unused no_values-Orders once in
      let t : (length keys == length (revision_keys job s.associations)) ≡ true =
        ap (λ l. length keys == length l) same ∙ ==-refl (length keys) in
      rw (t, submit_job, sort_revisions) refl

  sorted_rows :
      execute_updates job (indexed 0 (map (λ m. m.0) prepared)) s.associations
      ≡ front ++ rows_with job places 0 (map (λ m. m.0) prepared)
  sorted_rows =
      let keys = map (λ (m : ℕ × List ℕ). m.0) prepared in
      ap (execute_updates job (indexed 0 keys)) new_rows
      ∙ updated job (indexed 0 keys) front (rows_with job no_values 0 keys) unused
          (subst NoRepeat (sym (keys_of-indexed 0 keys)) once) (indexed-IsAligned job 0 keys)
      ∙ ap (λ l. front ++ l) (applied-indexed job 0 keys)

  submitted_rows :
      (submitted_tables job prepared s).associations
      ≡ front
        ++ rows_with job
            (diffs_of (submitted_tables job prepared s).revisions)
            0
            (map (λ m. m.0) prepared)
  unfolding submitted_tables set_landed_revision_diffs
  submitted_rows =
      let keys = map (λ (m : ℕ × List ℕ). m.0) prepared in
      let written = write_approved prepared s.revisions in
      ap (λ l. execute_updates job (dated written (revision_keys job l)) l) sorted_rows
      ∙ ap (λ k. execute_updates job (dated written k) (front ++ rows_with job places 0 keys))
          (revision_keys-rows job places 0 keys front unused places-Orders once)
      ∙ updated job (dated written keys) front (rows_with job places 0 keys) unused
          (subst NoRepeat (sym (keys_of-dated written keys)) once)
          (dated-IsAligned job 0 written keys)
      ∙ ap (λ l. front ++ l) (applied-dated job 0 written keys)

  pub submitted-shown : landed_revisions job (submitted_tables job prepared s) ≡ map shown pairs
  unfolding submitted_tables set_landed_revision_diffs
  submitted-shown =
      landed_revisions-shown job (submitted_tables job prepared s) front (map (λ m. m.0) prepared)
        pairs submitted_rows unused
        (write_approved-HasRows prepared s.revisions (map (λ m. m.0) prepared) pairs rows) distinct

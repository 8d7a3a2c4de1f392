-- ===== src/Submission/Prepare/Saved.antt =====
-- The row of a revision when it is saved and when its patch is set.
use lando_api.Common.{
  ==-refl, ap, ◌∙◌, All-imp, arith, map-append, suc, All-last, ◌++◌, ◌<◌, none, some, refl, sym,
  subst, Option, [], ◌∷◌, String, ◌≡◌, ◌≢◌, map, All, ℕ, List,
}
use lando_api.Submission.Prepare.{new_revision, author_of, set_patch, save_revision}
use lando_api.Common.Exec.{continue, Error, Exec, raised, returned, Outcome}
use lando_api.Submission.Tables.{revision_at, update_revision, get_from_revision_id, JobTables}
use lando_api.Submission.Tables.Rows.{
  revision_at-last, revision_at-append, HasRow-other, revision_at-update, get_from_revision_id-row,
  ids-update, HasRow-update, IsSound,
}
use lando_api.Landing.Revision.{Revision}
use lando_api.Submission.Tables.Shown.{HasRow}
use lando_api.Patch.Build.{build_patch_for_revision}
use lando_api.Common.Text.{decimal}
use lando_api.Submission.Tables.Updates.{NoRepeat}

abbrev pub OnReturn : {A : Type 0} → (A → Type 0) → Outcome A → Type 0
OnReturn P (returned a) = P a
OnReturn P (raised e) = Unit

-- What the rows have stays, except for the revisions with a revision id in the list.
abbrev pub Stays : List ℕ → JobTables → JobTables → Type 0
Stays ids s t =
    (k a b : ℕ) → All (λ i. a ≢ i) ids → HasRow s.revisions k a b → HasRow t.revisions k a b

pub continue-case :
    {A B : Type 0} (R : Outcome B × JobTables → Type 0) (r : Outcome A) (f : A → Exec JobTables B)
    (u : JobTables)
    → ((e : Error) → R (raised e, u))
    → ((a : A) → r ≡ returned a → R (f a u))
    → R (continue r f u)
continue-case R (returned a) f u h k = k a refl
continue-case R (raised e) f u h k = h e

-- The row is there, and the others stay.
abbrev pub Saves : (revision_id diff_id : ℕ) → JobTables → (key : ℕ) → JobTables → Type 0
Saves revision_id diff_id s key t =
    IsSound t × Stays (revision_id ∷ []) s t × HasRow t.revisions key revision_id diff_id

NoRepeat-last : (xs : List ℕ) (x : ℕ) → NoRepeat xs → All (λ i. i < x) xs → NoRepeat (xs ++ x ∷ [])
NoRepeat-last [] x h k = (tt, tt)
NoRepeat-last (y ∷ xs) x h k =
    let l = k.0 in (All-last (λ z. z ≢ y) xs x h.0 (λ e. omega arith), NoRepeat-last xs x h.1 k.1)

with_new : (revision_id diff_id : ℕ) → JobTables → JobTables
with_new revision_id diff_id s = record s {
  revisions = s.revisions ++ new_revision s.next_revision revision_id diff_id ∷ [];
  next_revision = suc s.next_revision;
}

with_new-Saves :
    (revision_id diff_id : ℕ) (s : JobTables)
    → IsSound s
    → Saves revision_id diff_id s s.next_revision (with_new revision_id diff_id s)
unfolding with_new new_revision
with_new-Saves revision_id diff_id s h =
    let new = new_revision s.next_revision revision_id diff_id in
    let ids = map-append (λ (r : Revision). r.id) s.revisions (new ∷ []) in
    let old = map (λ (r : Revision). r.id) s.revisions in
    (
      (
        subst NoRepeat (sym ids) (NoRepeat-last old s.next_revision h.0 h.1),
        subst (All (λ i. i < suc s.next_revision)) (sym ids) (
            All-last (λ i. i < suc s.next_revision) old s.next_revision
              (All-imp (λ i. i < s.next_revision) (λ i. i < suc s.next_revision) old
                (λ i l. omega arith) h.1)
              (omega arith)),
      ),
      (λ k a b n (r, e, p, q). (r, revision_at-append k s.revisions (new ∷ []) r e, p, q)),
      (new, revision_at-last s.revisions new h.1, refl, refl),
    )

with_diff : (diff_id : ℕ) → Revision → Revision
with_diff diff_id r = record r { diff_id = some diff_id }

with_old : (diff_id : ℕ) → Revision → JobTables → JobTables
with_old diff_id row s = record s {
  revisions = update_revision row.id (with_diff diff_id) s.revisions;
}

with_old-Saves :
    (revision_id diff_id : ℕ) (row : Revision) (s : JobTables)
    → IsSound s
    → get_from_revision_id revision_id s.revisions ≡ some row
    → Saves revision_id diff_id s row.id (with_old diff_id row s)
unfolding with_old with_diff
with_old-Saves revision_id diff_id row s h e =
    let (at, rid) = get_from_revision_id-row revision_id s.revisions row h.0 e in
    let same = ids-update row.id (with_diff diff_id) s.revisions (λ x. refl) in
    let new = revision_at-update row.id row.id (with_diff diff_id) s.revisions row (λ x. refl) at in
    (
      (subst NoRepeat (sym same) h.0, subst (All (λ i. i < s.next_revision)) (sym same) h.1),
      (λ k a b n x.
          HasRow-other k row.id a b (with_diff diff_id) s.revisions (λ y. refl)
            (λ q.
              let (r, f, p, d) = x in
              let f' : revision_at row.id s.revisions ≡ some r = rw q at f in
              let one : some row ≡ some r = sym at ∙ f' in
              let r_row : row ≡ r = cc in
              let ids : some revision_id ≡ some a = sym rid ∙ ap (λ y. y.revision_id) r_row ∙ p in
              n.0 (cc))
            x),
      (with_diff diff_id row, (rw (==-refl row.id) at new), rid, refl),
    )

pub save_revision-Saves :
    (revision_id diff_id : ℕ) (s : JobTables)
    → IsSound s
    → (key : ℕ) × ((save_revision revision_id diff_id s).0 ≡ returned key)
      × Saves revision_id diff_id s key (save_revision revision_id diff_id s).1
unfolding save_revision with_new with_old with_diff
save_revision-Saves revision_id diff_id s h =
    by_row (get_from_revision_id revision_id s.revisions) refl
  where
    Kept : Outcome ℕ × JobTables → Type 0
    Kept out = (key : ℕ) × (out.0 ≡ returned key) × Saves revision_id diff_id s key out.1

    by_row :
        (o : Option Revision)
        → get_from_revision_id revision_id s.revisions ≡ o
        → Kept (save_revision revision_id diff_id s)
    by_row none e =
        let c : save_revision revision_id diff_id s
            ≡ (returned s.next_revision, with_new revision_id diff_id s) =
          rw (e, save_revision) refl in
        subst Kept (sym c) (s.next_revision, refl, with_new-Saves revision_id diff_id s h)
    by_row (some row) e =
        let c : save_revision revision_id diff_id s ≡ (returned row.id, with_old diff_id row s) =
          rw (e, save_revision) refl in
        subst Kept (sym c) (row.id, refl, with_old-Saves revision_id diff_id row s h e)

pub set_patch-Saves :
    (key : ℕ) (raw : String) (author : Option String × Option String) (message : String) (now : ℕ)
    (revision_id diff_id : ℕ) (s t : JobTables)
    → Saves revision_id diff_id s key t
    → Saves revision_id diff_id s key (set_patch key raw author message now t).1
unfolding set_patch author_of
set_patch-Saves key raw (none, email) message now revision_id diff_id s t h = h
set_patch-Saves key raw (some name, none) message now revision_id diff_id s t h = h
set_patch-Saves key raw (some name, some email) message now revision_id diff_id s t
      (sound, stays, has) =
    let f = λ (r : Revision). record r {
      patch_string = build_patch_for_revision raw name email message (decimal now);
      commit_message = some message;
    } in
    let kept = λ (k a b : ℕ) (x : HasRow t.revisions k a b).
      HasRow-update k key a b f t.revisions (λ x. (refl, refl, refl)) x in
    let same = ids-update key f t.revisions (λ x. refl) in
    (
      (
        subst NoRepeat (sym same) sound.0,
        subst (All (λ i. i < t.next_revision)) (sym same) sound.1,
      ),
      (λ k a b n x. kept k a b (stays k a b n x)),
      kept key revision_id diff_id has,
    )

-- ===== src/Submission/Tables/Shown.antt =====
-- The revisions and diffs that `landed_revisions` shows.
use lando_api.Common.{
  append_assoc, append_nil, ◌∙◌, refl, ap, suc, ==-ne, sym, ◌++◌, ◌≡◌, some, map, [], ◌≢◌, Option,
  ◌∷◌, All, List, ℕ,
}
use lando_api.Submission.Tables.{
  associated, Association, revision_at, JobTables, landed_revisions, diff_of, dict_of, landed_rows,
  set_item,
}
use lando_api.Landing.Revision.{Revision}
use lando_api.Submission.Tables.Landed.{diffs_of-Orders, associated-rows, diffs_of, rows_with}
use lando_api.Submission.Tables.Updates.{IsUnused}

-- The row of the key has these ids.
abbrev pub HasRow : List Revision → (key revision_id diff_id : ℕ) → Type 0
HasRow revisions key revision_id diff_id =
    (r : Revision) × (revision_at key revisions ≡ some r)
    × (r.revision_id ≡ some revision_id)
    × (r.diff_id ≡ some diff_id)

-- For each key, its row has the revision id and the diff id of the pair.
abbrev pub HasRows : List Revision → List ℕ → List (ℕ × ℕ) → Type 0
HasRows revisions [] [] = Unit
HasRows revisions [] (p ∷ pairs) = ⊥
HasRows revisions (key ∷ keys) [] = ⊥
HasRows revisions (key ∷ keys) (p ∷ pairs) =
    HasRow revisions key p.0 p.1 × HasRows revisions keys pairs

abbrev pub shown : ℕ × ℕ → Option ℕ × Option ℕ
shown p = (some p.0, some p.1)

landed_rows-HasRows :
    (job i : ℕ) (revisions : List Revision) (keys : List ℕ) (pairs : List (ℕ × ℕ))
    → HasRows revisions keys pairs
    → landed_rows revisions (rows_with job (diffs_of revisions) i keys) ≡ map shown pairs
unfolding landed_rows diff_of
landed_rows-HasRows job i revisions [] [] h = refl
landed_rows-HasRows job i revisions [] (p ∷ pairs) h = absurd h
landed_rows-HasRows job i revisions (key ∷ keys) [] h = absurd h
landed_rows-HasRows job i revisions (key ∷ keys) (p ∷ pairs) ((r, e, a, b), h) =
    let rest = landed_rows-HasRows job (suc i) revisions keys pairs h in
    let q : diff_of revisions key ≡ some p.1 = rw (e, diff_of) b in
    rw (e, landed_rows) (rw a (rw q (ap (λ l. shown p ∷ l) rest)))

-- The key of the pair is not yet in the dict.
abbrev IsNew : List (Option ℕ × Option ℕ) → ℕ × ℕ → Type 0
IsNew items p = All (λ q. q.0 ≢ some p.0) items

abbrev pub Distinct : List (ℕ × ℕ) → Type 0
Distinct [] = Unit
Distinct (p ∷ pairs) = All (λ q. q.0 ≢ p.0) pairs × Distinct pairs

set_item-new :
    (p : ℕ × ℕ) (items : List (Option ℕ × Option ℕ))
    → IsNew items p
    → set_item (shown p) items ≡ items ++ shown p ∷ []
unfolding set_item
set_item-new p [] h = refl
set_item-new p (q ∷ items) h =
    rw (==-ne q.0 (some p.0) h.0) (ap (λ l. q ∷ l) (set_item-new p items h.1))

IsNew-append :
    (p q : ℕ × ℕ) (items : List (Option ℕ × Option ℕ))
    → IsNew items q
    → q.0 ≢ p.0
    → IsNew (items ++ shown p ∷ []) q
IsNew-append p q [] h n = ((λ e. let s : p.0 ≡ q.0 = cc in n (sym s)), tt)
IsNew-append p q (x ∷ items) h n = (h.0, IsNew-append p q items h.1 n)

IsNew-behind :
    (p : ℕ × ℕ) (pairs : List (ℕ × ℕ)) (items : List (Option ℕ × Option ℕ))
    → All (IsNew items) pairs
    → All (λ q. q.0 ≢ p.0) pairs
    → All (IsNew (items ++ shown p ∷ [])) pairs
IsNew-behind p [] items h n = tt
IsNew-behind p (q ∷ pairs) items h n =
    (IsNew-append p q items h.0 n.0, IsNew-behind p pairs items h.1 n.1)

dict_of-new :
    (items : List (Option ℕ × Option ℕ)) (pairs : List (ℕ × ℕ))
    → All (IsNew items) pairs
    → Distinct pairs
    → dict_of items (map shown pairs) ≡ items ++ map shown pairs
unfolding dict_of
dict_of-new items [] h d = sym (append_nil items)
dict_of-new items (p ∷ pairs) h d =
    ap (λ l. dict_of l (map shown pairs)) (set_item-new p items h.0)
    ∙ dict_of-new (items ++ shown p ∷ []) pairs (IsNew-behind p pairs items h.1 d.0) d.1
    ∙ append_assoc items (shown p ∷ []) (map shown pairs)

none_yet : (pairs : List (ℕ × ℕ)) → All (IsNew []) pairs
none_yet [] = tt
none_yet (p ∷ pairs) = (tt, none_yet pairs)

-- The job shows the pairs, in their order.
pub landed_revisions-shown :
    (job : ℕ) (t : JobTables) (front : List Association) (keys : List ℕ) (pairs : List (ℕ × ℕ))
    → t.associations ≡ front ++ rows_with job (diffs_of t.revisions) 0 keys
    → IsUnused job front
    → HasRows t.revisions keys pairs
    → Distinct pairs
    → landed_revisions job t ≡ map shown pairs
unfolding landed_revisions
landed_revisions-shown job t front keys pairs e f h d =
    ap (λ l. dict_of [] (landed_rows t.revisions (associated job l))) e
    ∙ ap (λ l. dict_of [] (landed_rows t.revisions l))
        (associated-rows job (diffs_of t.revisions) 0 keys front f (diffs_of-Orders t.revisions))
    ∙ ap (dict_of []) (landed_rows-HasRows job 0 t.revisions keys pairs h)
    ∙ dict_of-new [] pairs (none_yet pairs) d

-- ===== src/Treestatus/Stack/Restore.antt =====
-- `revert_change` with `revert` set: the trees show again what they showed before the change.
use lando_api.Common.{
  find-true, nat_eq, ==-eq, ◌==◌, inr, inl, Bool-cases, true, not, keep, find, ℕ, Bool, refl, ap,
  sym, subst, ◌∙◌, ◌≡◌, ◌≢◌, is_some, All, List, String, none, some, [], ◌∷◌,
}
use lando_api.Treestatus.Tree.{StatusChange, load_last_state, StatusChangeTree}
use lando_api.Common.Exec.{pure, ◌>>◌, continue, returned, for_each}
use lando_api.Treestatus.Stack.{
  drop_change, find_change, trees_of, revert_change, revert_found, restore_found, restore_tree,
}
use lando_api.Treestatus.Store.View.{IsKnown, IsCached, view, shown, Shown}
use lando_api.Treestatus.Store.{last_log, commit, change_tables, Tables, find_tree, Found, Store}
use lando_api.Treestatus.Store.Lookup.{get_tree_by_name-IsLookup, IsLookup}
use lando_api.Treestatus.Store.Updated.{update_tree_status-IsUpdated, IsUpdated}

IsUpdated-of_found :
    (name : String) (new : Shown) (s s₁ s' : Store) (found : Found)
    → IsLookup name s found s₁
    → IsUpdated found.combined.model.tree new s₁ s'
    → IsUpdated name new s s'
IsUpdated-of_found name new s s₁ s' found l u = record {
  seen = λ k.
      subst (λ n. IsKnown n s₁.tables → view n s'.tables ≡ some new) l.named u.seen
        (subst (IsKnown name) (sym l.tables) k);
  others = λ n h. u.others n (λ e. h (e ∙ l.named)) ∙ ap (view n) l.tables;
  known = λ n. u.known n ∙ ap (λ d. is_some (find_tree n d)) l.tables;
  caches = λ _. u.caches l.caches;
  stack = u.stack ∙ ap (λ (d : Tables). d.change_trees) l.tables;
  changes = u.changes ∙ ap (λ (d : Tables). d.changes) l.tables;
}

-- What the row of a change says that its tree showed before the change.
abbrev pub shown_before : StatusChangeTree → Shown
shown_before c = shown (load_last_state c.last_state).old

module _ (user : String) where
  restore_tree-IsUpdated :
      (c : StatusChangeTree) (s : Store)
      → IsCached s.cached
      → IsKnown c.tree s.tables
      → (s' : Store) × (restore_tree user c s ≡ (returned tt, s'))
        × IsUpdated c.tree (shown_before c) s s'
  unfolding restore_tree restore_found
  restore_tree-IsUpdated c s h k =
      let state = (load_last_state c.last_state).old in
      let (found, s₁, e, l) = get_tree_by_name-IsLookup c.tree s h k in
      let (s', q, u) =
        update_tree_status-IsUpdated user found.combined.model.tree state.status (some state.reason)
          none state.tags found.attached s₁ in
      (
        s',
        ap (λ r. continue r.0 (restore_found user state) r.1) e ∙ q,
        IsUpdated-of_found c.tree (shown_before c) s s₁ s' found l u,
      )

  -- The trees of a list of rows have been put back, and nothing else has changed.
  pub record IsRestored (cs : List StatusChangeTree) (s s' : Store) : Type 0 where
    pub restored : All (λ c. view c.tree s'.tables ≡ some (shown_before c)) cs
    pub others : (n : String) → All (λ c. n ≢ c.tree) cs → view n s'.tables ≡ view n s.tables
    pub stack : s'.tables.change_trees ≡ s.tables.change_trees
    pub changes : s'.tables.changes ≡ s.tables.changes

  -- No tree stands in two of the rows.
  abbrev pub IsDistinct : List StatusChangeTree → Type 0
  IsDistinct [] = Unit
  IsDistinct (c ∷ cs) = All (λ d. c.tree ≢ d.tree) cs × IsDistinct cs

  AreKnown-after :
      (cs : List StatusChangeTree) (s s' : Store)
      → ((n : String) → is_some (find_tree n s'.tables) ≡ is_some (find_tree n s.tables))
      → All (λ c. IsKnown c.tree s.tables) cs
      → All (λ c. IsKnown c.tree s'.tables) cs
  AreKnown-after [] s s' h k = tt
  AreKnown-after (c ∷ cs) s s' h k = (h c.tree ∙ k.0, AreKnown-after cs s s' h k.1)

  for_each-IsRestored :
      (cs : List StatusChangeTree) (s : Store)
      → IsCached s.cached
      → IsDistinct cs
      → All (λ c. IsKnown c.tree s.tables) cs
      → (s' : Store) × (for_each cs (restore_tree user) s ≡ (returned tt, s')) × IsRestored cs s s'
  unfolding for_each
  for_each-IsRestored [] s h d k =
      (s, refl, record { restored = tt; others = λ n _. refl; stack = refl; changes = refl })
  for_each-IsRestored (c ∷ cs) s h d k =
      let (s₁, e, u) = restore_tree-IsUpdated c s h k.0 in
      let (s', q, r) =
        for_each-IsRestored cs s₁ (u.caches h) d.1 (AreKnown-after cs s s₁ u.known k.1) in
      (
        s',
        ap (λ r. continue r.0 (λ _. for_each cs (restore_tree user)) r.1) e ∙ q,
        record {
          restored = (r.others c.tree d.0 ∙ u.seen k.0, r.restored);
          others = λ n o. r.others n o.1 ∙ u.others n o.0;
          stack = r.stack ∙ u.stack;
          changes = r.changes ∙ u.changes;
        },
      )

  find-keep : {A : Type 0} (p : A → Bool) (xs : List A) → find p (keep (λ x. not (p x)) xs) ≡ none
  find-keep p [] = refl
  find-keep p (x ∷ xs) = elim (Bool-cases (p x)) [
    | inl t ↦ rw t (find-keep p xs)
    | inr f ↦ rw f (rw f (find-keep p xs))
  ]

  -- A change with an id has been reverted.
  pub record IsReverted (id : ℕ) (s s' : Store) : Type 0 where
    pub restored : All (λ c. view c.tree s'.tables ≡ some (shown_before c)) (trees_of id s.tables)
    pub others :
        (n : String)
        → All (λ c. n ≢ c.tree) (trees_of id s.tables)
        → view n s'.tables ≡ view n s.tables
    pub dropped : find_change id s'.tables ≡ none
    pub committed : s'.committed ≡ s'.tables

  revert_found-IsReverted :
      (change : StatusChange) (s : Store)
      → IsCached s.cached
      → IsDistinct (trees_of change.id s.tables)
      → All (λ c. IsKnown c.tree s.tables) (trees_of change.id s.tables)
      → (s' : Store) × (revert_found user true (some change) s ≡ (returned change.id, s'))
        × IsReverted change.id s s'
  unfolding revert_found drop_change find_change change_tables commit find_tree last_log
  revert_found-IsReverted change s h d k =
      let (s₁, e, r) = for_each-IsRestored (trees_of change.id s.tables) s h d k in
      let t = drop_change change.id s₁.tables in
      (
        record s₁ { tables = t; committed = t },
        ap
            (λ q.
              continue q.0 (λ _. change_tables (drop_change change.id) >> commit >> pure change.id)
                q.1)
            e,
        record {
          restored = r.restored;
          others = r.others;
          dropped = find-keep (λ c. c.id == change.id) s₁.tables.changes;
          committed = refl;
        },
      )

  -- Reverting a change that exists returns its id. Each tree of the change shows the status, the
  -- reason and the tags that the change remembers from before it, every other tree shows what it
  -- showed, the change is gone, and all of this is committed. The conditions are that each tree of
  -- the change still exists and stands there once, and that the models in the cache have the names
  -- under which they are cached; whether a tree comes from the cache or from the database does not
  -- matter.
  pub revert_change-IsReverted :
      (id : ℕ) (change : StatusChange) (s : Store)
      → find_change id s.tables ≡ some change
      → IsCached s.cached
      → IsDistinct (trees_of id s.tables)
      → All (λ c. IsKnown c.tree s.tables) (trees_of id s.tables)
      → (s' : Store) × (revert_change user id true s ≡ (returned id, s')) × IsReverted id s s'
  unfolding revert_change find_change
  revert_change-IsReverted id change s e h d k =
      let same : change.id ≡ id =
        ==-eq change.id id (find-true (λ c. c.id == id) s.tables.changes e) in
      let (s', q, r) =
        revert_found-IsReverted change s h
          (subst (λ i. IsDistinct (trees_of i s.tables)) (sym same) d)
          (subst (λ i. All (λ c. IsKnown c.tree s.tables) (trees_of i s.tables)) (sym same) k) in
      (
        s',
        ap (λ f. revert_found user true f s) e ∙ q ∙ ap (λ i. (returned i, s')) same,
        subst (λ i. IsReverted i s s') same r,
      )

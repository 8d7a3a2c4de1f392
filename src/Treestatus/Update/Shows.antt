-- ===== src/Treestatus/Update/Shows.antt =====
-- `update_trees`: what the trees show afterwards, and an update that gives no status.
use lando_api.Common.{
  option_eq, bool_eq, false, keep, map, Bool, length, find, string_eq, ==-refl, sym, subst, ==-eq,
  ap, ◌==◌, ◌∙◌, refl, ◌≢◌, Bool-cases, ◌≡◌, All, or_default, is_some, Option, List, String, none,
  some, [], ◌∷◌, true, inl, inr,
}
use lando_api.Treestatus.Store.View.{shown_by, IsKnown, view, Shown}
use lando_api.Treestatus.Update.{
  new_status_of, response, remember_if_asked, check_body, update_trees, update_each, TreesBody,
}
use lando_api.Treestatus.Tree.{get_combined_tree, Log, Tree, CombinedTree, TreeStatus}
use lando_api.Treestatus.Store.{commit, Tables, get_combined_trees, last_log, find_tree, Store}
use lando_api.Common.Exec.{value_error, raised, continue, returned, for_each}
use lando_api.Treestatus.Store.Updated.{
  update_tree_status-none, update_tree_status-IsUpdated, IsUpdated,
}
use lando_api.Common.Text.{is_truthy}

module _ (new : Shown) where
  known_if_shown : (r : Option Tree) (l : Option Log) → shown_by r l ≡ some new → is_some r ≡ true
  known_if_shown none l e = cc
  known_if_shown (some t) l e = refl

  -- A tree that shows the new values shows them also after another update to these values.
  keeps_shown :
      (name n : String) (s s' : Store)
      → IsUpdated name new s s'
      → view n s.tables ≡ some new
      → view n s'.tables ≡ some new
  keeps_shown name n s s' u e = elim (Bool-cases (n == name)) [
    | inl t ↦
        let same = ==-eq n name t in
        subst (λ m. view m s'.tables ≡ some new) (sym same)
          (u.seen (
            subst (λ m. IsKnown m s.tables) same
              (known_if_shown (find_tree n s.tables) (last_log n s.tables) e)))
    | inr f ↦ u.others n (λ q. cc (rw (q, ==-refl name) at f)) ∙ e
  ]

  -- Each of the trees shows the new values, and all others what they showed.
  pub record AreUpdated (ts : List CombinedTree) (s s' : Store) : Type 0 where
    pub seen : All (λ t. view t.model.tree s'.tables ≡ some new) ts
    pub kept : (n : String) → view n s.tables ≡ some new → view n s'.tables ≡ some new
    pub others : (n : String) → All (λ t. n ≢ t.model.tree) ts → view n s'.tables ≡ view n s.tables
    pub stack : s'.tables.change_trees ≡ s.tables.change_trees
    pub changes : s'.tables.changes ≡ s.tables.changes

AreKnown-after :
    (ts : List CombinedTree) (s s' : Store)
    → ((n : String) → is_some (find_tree n s'.tables) ≡ is_some (find_tree n s.tables))
    → All (λ t. IsKnown t.model.tree s.tables) ts
    → All (λ t. IsKnown t.model.tree s'.tables) ts
AreKnown-after [] s s' h k = tt
AreKnown-after (t ∷ ts) s s' h k = (h t.model.tree ∙ k.0, AreKnown-after ts s s' h k.1)

abbrev pub new_values : TreesBody → TreeStatus → Shown
new_values body status = (status, (or_default body.reason "no change", or_default body.tags []))

module _ (user : String) (body : TreesBody) (status : TreeStatus) where
  for_each-AreUpdated :
      (ts : List CombinedTree) (s : Store)
      → All (λ t. IsKnown t.model.tree s.tables) ts
      → (s' : Store) × (for_each ts (update_each user body (some status)) s ≡ (returned tt, s'))
        × AreUpdated (new_values body status) ts s s'
  unfolding for_each update_each
  for_each-AreUpdated [] s k = (
    s,
    refl,
    record { seen = tt; kept = λ n e. e; others = λ n _. refl; stack = refl; changes = refl },
  )
  for_each-AreUpdated (t ∷ ts) s k =
      let new = new_values body status in
      let (s₁, e, u) =
        update_tree_status-IsUpdated user t.model.tree status body.reason body.message_of_the_day
          (or_default body.tags []) true s in
      let (s', q, r) = for_each-AreUpdated ts s₁ (AreKnown-after ts s s₁ u.known k.1) in
      (
        s',
        ap (λ r. continue r.0 (λ _. for_each ts (update_each user body (some status))) r.1) e ∙ q,
        record {
          seen = (r.kept t.model.tree (u.seen k.0), r.seen);
          kept = λ n e. r.kept n (keeps_shown new t.model.tree n s s₁ u e);
          others = λ n o. r.others n o.1 ∙ u.others n o.0;
          stack = r.stack ∙ u.stack;
          changes = r.changes ∙ u.changes;
        },
      )

abbrev HasTree : List Tree → Tree → Type 0
HasTree all t = is_some (find (λ x. x.tree == t.tree) all) ≡ true

All-HasTree-cons :
    (a : Tree) (all ts : List Tree) → All (HasTree all) ts → All (HasTree (a ∷ all)) ts
All-HasTree-cons a all [] h = tt
All-HasTree-cons a all (t ∷ ts) h = (
  elim (Bool-cases (a.tree == t.tree)) [ inl e ↦ rw e refl | inr e ↦ rw e h.0 ],
  All-HasTree-cons a all ts h.1,
)

All-HasTree : (ts : List Tree) → All (HasTree ts) ts
All-HasTree [] = tt
All-HasTree (t ∷ ts) = (rw (==-refl t.tree) refl, All-HasTree-cons t ts ts (All-HasTree ts))

AreKnown-keep :
    (d : Tables) (p : Tree → Bool) (ts : List Tree)
    → All (HasTree d.trees) ts
    → All
        (λ t. IsKnown t.model.tree d)
        (map (λ t. get_combined_tree t (last_log t.tree d)) (keep p ts))
unfolding find_tree get_combined_tree
AreKnown-keep d p [] h = tt
AreKnown-keep d p (t ∷ ts) h = elim (Bool-cases (p t)) [
  | inl e ↦ rw e (h.0, AreKnown-keep d p ts h.1)
  | inr e ↦ rw e (AreKnown-keep d p ts h.1)
]

AreKnown-get_combined_trees :
    (names : List String) (d : Tables)
    → All (λ t. IsKnown t.model.tree d) (get_combined_trees names d)
unfolding get_combined_trees
AreKnown-get_combined_trees names d = AreKnown-keep d _ d.trees (All-HasTree d.trees)

module _ (user : String) (body : TreesBody) (s : Store) where
  abbrev chosen : List CombinedTree
  chosen = get_combined_trees body.trees s.tables

  -- An update of trees that passes the checks, gives a valid status and is not to be remembered
  -- returns the names of the trees. Each of them shows the new status, the new reason ("no change"
  -- if none is given) and the new tags (none if none are given), every other tree shows what it
  -- showed, the stack of changes is as it was, and all is committed.
  pub update_trees-AreUpdated :
      (status : TreeStatus)
      → check_body body (length chosen) ≡ returned tt
      → new_status_of body.status ≡ returned (some status)
      → (body.remember == some true) ≡ false
      → (s' : Store) × (update_trees user body s ≡ (returned (map (λ t. t.tree) chosen), s'))
        × AreUpdated (new_values body status) chosen s s'
        × (s'.committed ≡ s'.tables)
  unfolding update_trees remember_if_asked response commit
  update_trees-AreUpdated status checked parsed forgotten =
      let (s', e, u) =
        for_each-AreUpdated user body status chosen s
          (AreKnown-get_combined_trees body.trees s.tables) in
      (
        record s' { committed = s'.tables },
        rw checked (rw parsed (rw e (rw forgotten refl))),
        record {
          seen = u.seen;
          kept = u.kept;
          others = u.others;
          stack = u.stack;
          changes = u.changes;
        },
        refl,
      )

  -- A request that passes the checks and gives a reason that is not empty but no status, for at
  -- least one tree, raises a ValueError: the word that stands for the missing status in the log is no status. What
  -- was committed stays as it was.
  pub update_trees-no_status :
      {t : CombinedTree} {rest : List CombinedTree} {reason : String}
      → chosen ≡ t ∷ rest
      → check_body body (length chosen) ≡ returned tt
      → body.status ≡ none
      → body.reason ≡ some reason
      → is_truthy reason ≡ true
      → (message : String) × ((update_trees user body s).0 ≡ raised (value_error message))
        × ((update_trees user body s).1.committed ≡ s.committed)
  unfolding update_trees for_each update_each new_status_of
  update_trees-no_status {t} {rest} {reason} e checked no_status given truthy =
      let (words, s', q, c) =
        update_tree_status-none user t.model.tree reason body.message_of_the_day
          (or_default body.tags []) s truthy in
      (
        words,
        rw (checked) (rw (no_status, given) (rw e (rw q refl))),
        rw checked (rw (no_status, given) (rw e (rw q c))),
      )

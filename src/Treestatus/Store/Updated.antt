-- ===== src/Treestatus/Store/Updated.antt =====
-- What an update of the status of a tree changes, and what it leaves.
use lando_api.Common.{
  [], ◌∷◌, none, ◌∙◌, ==-refl, refl, false, true, string_eq, sym, ==-ne, ◌==◌, not, or_default,
  true, is_some, some, ◌≢◌, keep, ◌≡◌, Bool, List, Option, String,
}
use lando_api.Treestatus.Tree.{parse_tree_status, Log, Tree, TreeStatus, state_of}
use lando_api.Treestatus.Store.View.{
  shown_by, IsKnown-write_tree, IsCached-forget, find_tree-write_tree, IsCached, view, IsKnown,
  Shown,
}
use lando_api.Treestatus.Store.{
  logged_status, is_logged, forget, revised, find_tree, Tables, change_tables, last_log, add_log,
  update_tree_status, write_tree, Store,
}
use lando_api.Common.Exec.{value_error, raised, returned}
use lando_api.Common.Text.{text, is_truthy}

-- The update of the tree with a name has been done: the tree shows `new`, if it is known, all others
-- show what they showed, and the stack of changes is as it was.
pub record IsUpdated (name : String) (new : Shown) (s s' : Store) : Type 0 where
  pub seen : IsKnown name s.tables → view name s'.tables ≡ some new
  pub others : (n : String) → n ≢ name → view n s'.tables ≡ view n s.tables
  pub known : (n : String) → is_some (find_tree n s'.tables) ≡ is_some (find_tree n s.tables)
  pub caches : IsCached s.cached → IsCached s'.cached
  pub stack : s'.tables.change_trees ≡ s.tables.change_trees
  pub changes : s'.tables.changes ≡ s.tables.changes

view_known :
    (name : String) (found : Option Tree) (l : Log)
    → is_some found ≡ true
    → shown_by found (some l) ≡ some (l.status, (l.reason, l.tags))
unfolding state_of
view_known name none l h = cc
view_known name (some t) l h = refl

module _ (user name : String) (status : TreeStatus) (reason message : Option String)
    (tags : List String) where
  written : Bool → Tables → Tables
  written true d = write_tree name (revised (some status) reason message) d
  written false d = d

  logged : Bool → Tables → Tables
  logged attached d =
      add_log user name status (or_default reason "no change") tags (written attached d)

  after_update : Bool → Store → Store
  after_update attached s = record s {
    tables = logged attached s.tables;
    cached = keep (λ c. not (c.tree == name)) s.cached;
  }

  update-after :
      (attached : Bool) (s : Store)
      → update_tree_status user attached name (some status) reason message tags s
        ≡ (returned tt, after_update attached s)
  unfolding update_tree_status change_tables forget after_update logged written
  update-after true s = refl
  update-after false s = refl

  IsKnown-logged :
      (attached : Bool) (n : String) (d : Tables)
      → is_some (find_tree n (logged attached d)) ≡ is_some (find_tree n d)
  unfolding logged written add_log find_tree
  IsKnown-logged true n d = IsKnown-write_tree name (some status) reason message n d
  IsKnown-logged false n d = refl

  find_tree-logged :
      (attached : Bool) (n : String) (d : Tables)
      → n ≢ name
      → find_tree n (logged attached d) ≡ find_tree n d
  unfolding logged written add_log find_tree
  find_tree-logged true n d h = find_tree-write_tree name (some status) reason message n d h
  find_tree-logged false n d h = refl

  last_log-logged :
      (attached : Bool) (n : String) (d : Tables)
      → n ≢ name
      → last_log n (logged attached d) ≡ last_log n d
  unfolding logged written add_log last_log write_tree
  last_log-logged true n d h = rw (==-ne name n (λ e. h (sym e))) refl
  last_log-logged false n d h = rw (==-ne name n (λ e. h (sym e))) refl

  view-logged :
      (attached : Bool) (d : Tables)
      → IsKnown name d
      → view name (logged attached d) ≡ some (status, (or_default reason "no change", tags))
  unfolding logged add_log last_log
  view-logged attached d k =
      rw (==-refl name) (
        view_known name (find_tree name (logged attached d)) _ (IsKnown-logged attached name d ∙ k))

  stack-written :
      (attached : Bool) (d : Tables) → (written attached d).change_trees ≡ d.change_trees
  unfolding written write_tree
  stack-written true d = refl
  stack-written false d = refl

  changes-written : (attached : Bool) (d : Tables) → (written attached d).changes ≡ d.changes
  unfolding written write_tree
  changes-written true d = refl
  changes-written false d = refl

  -- An update that gives a status returns, whether the model is attached or not.
  pub update_tree_status-IsUpdated :
      (attached : Bool) (s : Store)
      → (s' : Store) × (update_tree_status user attached name (some status) reason message tags s
          ≡ (returned tt, s'))
        × IsUpdated name (status, (or_default reason "no change", tags)) s s'
  unfolding after_update logged written add_log
  update_tree_status-IsUpdated attached s = (
    after_update attached s,
    update-after attached s,
    record {
      seen = view-logged attached s.tables;
      others = λ n h.
          rw (find_tree-logged attached n s.tables h, last_log-logged attached n s.tables h) refl;
      known = λ n. IsKnown-logged attached n s.tables;
      caches = IsCached-forget name s.cached;
      stack = stack-written attached s.tables;
      changes = changes-written attached s.tables;
    },
  )

-- An update that gives a reason and no status raises.
pub update_tree_status-none :
    (user name reason : String) (message : Option String) (tags : List String) (s : Store)
    → is_truthy reason ≡ true
    → (words : String) × (s' : Store) × (update_tree_status user true name none
          (some reason)
          message
          tags
          s
        ≡ (raised (value_error words), s'))
      × (s'.committed ≡ s.committed)
unfolding update_tree_status is_logged logged_status change_tables parse_tree_status
update_tree_status-none user name reason message tags s truthy = (
  text ("'" ∷ "no change" ∷ "' is not a valid TreeStatus" ∷ []),
  record s { tables = write_tree name (revised none (some reason) message) s.tables },
  rw truthy refl,
  refl,
)

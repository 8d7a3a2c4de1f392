-- ===== src/Treestatus/Store/Lookup.antt =====
-- `get_tree_by_name`: it finds a known tree, in the cache or in the tables.
use lando_api.Common.{
  refl, ◌∷◌, ◌∙◌, find-All, find, ap, string_eq, ◌==◌, find-true, ==-eq, is_some, Option, ◌≡◌,
  String, false, true, none, some,
}
use lando_api.Treestatus.Store.{
  joined, cached_or, last_log, Found, Tables, Store, remember_tree, read_tree, get_tree_by_name,
  find_tree,
}
use lando_api.Treestatus.Tree.{CombinedTree, Tree, get_combined_tree}
use lando_api.Treestatus.Store.View.{IsKnown, IsCached}
use lando_api.Common.Exec.{returned}

-- A lookup of a name has found a tree, and has left the tables as they were.
pub record IsLookup (name : String) (s : Store) (found : Found) (s' : Store) : Type 0 where
  pub named : found.combined.model.tree ≡ name
  pub caches : IsCached s'.cached
  pub tables : s'.tables ≡ s.tables

read_fresh :
    (name : String) (d : Tables) (r : Option Tree)
    → find_tree name d ≡ r
    → is_some r ≡ true
    → (t : Tree) × (read_tree name d ≡ some (get_combined_tree t (last_log name d)))
      × (t.tree ≡ name)
unfolding find_tree read_tree
read_fresh name d none e k = cc
read_fresh name d (some t) e k = (
  t,
  ap (λ r. joined r (last_log name d)) e,
  ==-eq t.tree name (find-true (λ t. t.tree == name) d.trees e),
)

pub get_tree_by_name-IsLookup :
    (name : String) (s : Store)
    → IsCached s.cached
    → IsKnown name s.tables
    → (found : Found) × (s' : Store) × (get_tree_by_name name s ≡ (returned (some found), s'))
      × IsLookup name s found s'
unfolding get_tree_by_name cached_or remember_tree get_combined_tree
get_tree_by_name-IsLookup name s h k = looked (find (λ c. c.tree == name) s.cached) refl
  where
    looked :
        (r : Option CombinedTree)
        → find (λ c. c.tree == name) s.cached ≡ r
        → (found : Found) × (s' : Store) × (get_tree_by_name name s ≡ (returned (some found), s'))
          × IsLookup name s found s'
    looked (some c) e = (
      record { attached = false; combined = c },
      s,
      ap (λ r. cached_or r (read_tree name s.tables) s) e,
      record {
        named =
            find-All (λ c. c.model.tree ≡ c.tree) (λ c. c.tree == name) s.cached h e
            ∙ ==-eq c.tree name (find-true (λ c. c.tree == name) s.cached e);
        caches = h;
        tables = refl;
      },
    )
    looked none e =
        let (t, q, n) = read_fresh name s.tables (find_tree name s.tables) refl k in
        let c = get_combined_tree t (last_log name s.tables) in
        (
          record { attached = true; combined = c },
          record s { cached = c ∷ s.cached },
          ap (λ r. cached_or r (read_tree name s.tables) s) e ∙ ap (λ r. cached_or none r s) q,
          record { named = n; caches = (refl, h); tables = refl },
        )

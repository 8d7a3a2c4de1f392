-- ===== src/Treestatus/Store/Coherent.antt =====
-- The cache of `get_tree_by_name` against the tables.
use lando_api.Common.{
  ◌||◌, is_some, Bool, refl, find-All, ◌∙◌, find-true, ==-eq, ap, subst, string_eq, sym, ◌==◌, find,
  All, ◌≡◌, List, Option, String, ℕ, none, some, ◌∷◌, true, false,
}
use lando_api.Treestatus.Store.{
  find_log, change_tables, write_log, update_tree_log, last_log, joined, from_cache, remember_tree,
  find_tree, Found, Store, cached_or, Tables, get_tree_by_name, read_tree,
}
use lando_api.Treestatus.Tree.{Log, Tree, CombinedTree, get_combined_tree}
use lando_api.Common.Exec.{◌>>=◌, gets, when, returned}

-- Each cached value is what the query would return.
abbrev pub IsCoherent : Tables → List CombinedTree → Type 0
IsCoherent d cs = All (λ c. read_tree c.tree d ≡ some c) cs

abbrev pub combined_of : Option Found → Option CombinedTree
combined_of none = none
combined_of (some f) = some f.combined

-- A lookup has answered as the query would, and has left the tables as they were.
pub record IsAnswer (name : String) (s : Store) (found : Option Found) (s' : Store) : Type 0 where
  pub answer : combined_of found ≡ read_tree name s.tables
  pub coherent : IsCoherent s'.tables s'.cached
  pub tables : s'.tables ≡ s.tables
  pub committed : s'.committed ≡ s.committed

abbrev name_of : Option CombinedTree → String
name_of none = ""
name_of (some c) = c.tree

read_named :
    (name : String) (d : Tables) (c : CombinedTree) → read_tree name d ≡ some c → c.tree ≡ name
unfolding read_tree find_tree get_combined_tree
read_named name d c e = named (find (λ t. t.tree == name) d.trees) refl
  where
    named : (r : Option Tree) → find (λ t. t.tree == name) d.trees ≡ r → c.tree ≡ name
    named none q = let h : none ≡ some c = ap (λ r. joined r (last_log name d)) (sym q) ∙ e in cc
    named (some t) q =
        let h : some (get_combined_tree t (last_log name d)) ≡ some c =
          ap (λ r. joined r (last_log name d)) (sym q) ∙ e in
        ap name_of (sym h) ∙ ==-eq t.tree name (find-true (λ t. t.tree == name) d.trees q)

pub get_tree_by_name-IsAnswer :
    (name : String) (s : Store)
    → IsCoherent s.tables s.cached
    → (found : Option Found) × (s' : Store) × (get_tree_by_name name s ≡ (returned found, s'))
      × IsAnswer name s found s'
unfolding get_tree_by_name cached_or remember_tree from_cache
get_tree_by_name-IsAnswer name s h = looked (find (λ c. c.tree == name) s.cached) refl
  where
    fresh :
        (r : Option CombinedTree)
        → read_tree name s.tables ≡ r
        → (found : Option Found) × (s' : Store) × (cached_or none r s ≡ (returned found, s'))
          × IsAnswer name s found s'
    fresh none q =
        (none, s, refl, record { answer = sym q; coherent = h; tables = refl; committed = refl })
    fresh (some c) q = (
      some (record { attached = true; combined = c }),
      record s { cached = c ∷ s.cached },
      refl,
      record {
        answer = sym q;
        coherent =
            (subst (λ n. read_tree n s.tables ≡ some c) (sym (read_named name s.tables c q)) q, h);
        tables = refl;
        committed = refl;
      },
    )

    looked :
        (r : Option CombinedTree)
        → find (λ c. c.tree == name) s.cached ≡ r
        → (found : Option Found) × (s' : Store) × (get_tree_by_name name s ≡ (returned found, s'))
          × IsAnswer name s found s'
    looked (some c) e = (
      some (record { attached = false; combined = c }),
      s,
      ap (λ r. cached_or r (read_tree name s.tables) s) e,
      record {
        answer = sym (
            subst (λ n. read_tree n s.tables ≡ some c)
              (==-eq c.tree name (find-true (λ c. c.tree == name) s.cached e))
              (find-All (λ c. read_tree c.tree s.tables ≡ some c) (λ c. c.tree == name) s.cached h
                e));
        coherent = h;
        tables = refl;
        committed = refl;
      },
    )
    looked none e =
        let (found, s', q, a) = fresh (read_tree name s.tables) refl in
        (found, s', ap (λ r. cached_or r (read_tree name s.tables) s) e ∙ q, a)

-- A cached tree is answered without a look at the tables.
pub get_tree_by_name-from_cache :
    (name : String) (s : Store) (c : CombinedTree)
    → from_cache name s ≡ some c
    → get_tree_by_name name s ≡ (returned (some (record { attached = false; combined = c })), s)
unfolding get_tree_by_name cached_or
get_tree_by_name-from_cache name s c e = ap (λ r. cached_or r (read_tree name s.tables) s) e

pub update_tree_log-from_cache :
    (name : String) (id : Option ℕ) (tags : Option (List String)) (reason : Option String)
    (s : Store)
    → from_cache name (update_tree_log id tags reason s).1 ≡ from_cache name s
unfolding update_tree_log write_log change_tables from_cache
update_tree_log-from_cache name id tags reason s =
    ap (λ cs. find (λ (c : CombinedTree). c.tree == name) cs)
      (edited (is_some tags || is_some reason))
  where
    unread : (l : Option Log) → (write_log tags reason l s).1.cached ≡ s.cached
    unread none = refl
    unread (some l) = refl

    edited :
        (b : Bool)
        → (when b (gets (λ v. find_log id v.tables) >>= write_log tags reason) s).1.cached
          ≡ s.cached
    edited false = refl
    edited true = unread (find_log id s.tables)

-- ===== src/Treestatus/Handlers/Reading.antt =====
-- What a reader of the tree status sees.
use lando_api.Common.{
  ◌||◌, is_some, map, refl, ◌∙◌, ap, ◌≡◌, Bool, Option, String, ℕ, none, some, true, false,
}
use lando_api.Treestatus.Store.View.{Shown}
use lando_api.Treestatus.Handlers.{
  update_tree_log, update_if_stacked, shown_tree, update_log, get_tree,
}
use lando_api.Treestatus.Store.{from_cache, commit, change_tables, Found, Store}
use lando_api.Treestatus.Tree.{Tree, CombinedTree, takes_landings}
use lando_api.Treestatus.Store.Coherent.{update_tree_log-from_cache, get_tree_by_name-from_cache}
use lando_api.Common.Exec.{when, raised, ◌>>◌, Exec, Outcome, continue, returned}
use lando_api.Treestatus.Stack.{EditBody}

-- A tree that is not known takes landings.
abbrev pub shows_open : Option Shown → Bool
shows_open none = true
shows_open (some v) = takes_landings v.0

module _ (name : String) where
  abbrev landing_of : Option CombinedTree → Bool
  landing_of none = true
  landing_of (some c) = takes_landings c.state.status

  from_cache-update_log :
      (id : ℕ) (body : EditBody) (s : Store)
      → from_cache name (update_log id body s).1 ≡ from_cache name s
  unfolding update_log change_tables commit from_cache
  from_cache-update_log id body s = edited (is_some body.tags || is_some body.reason)
    where
      rest : Exec Store Unit
      rest = do
        change_tables
            (λ d. record d { change_trees = map (update_if_stacked id body) d.change_trees })
        commit

      unread :
          (r : Outcome (Unit {0}) × Store)
          → from_cache name r.1 ≡ from_cache name s
          → from_cache name (((λ _. r) >> rest) s).1 ≡ from_cache name s
      unread (returned _, s') h = h
      unread (raised e, s') h = h

      edited :
          (b : Bool)
          → from_cache name (when b (update_tree_log (some id) body.tags body.reason >> rest) s).1
            ≡ from_cache name s
      edited false = refl
      edited true =
          unread (update_tree_log (some id) body.tags body.reason s)
            (update_tree_log-from_cache name (some id) body.tags body.reason s)

  -- A tree that is in the cache is shown after `update_log` as it was cached, whatever log is
  -- changed and however: the handler does not invalidate the cache.
  pub get_tree-update_log :
      (id : ℕ) (body : EditBody) (s : Store) (c : CombinedTree)
      → from_cache name s ≡ some c
      → (get_tree name (update_log id body s).1).0 ≡ returned c
  unfolding get_tree
  get_tree-update_log id body s c e =
      let s' = (update_log id body s).1 in
      ap (λ (r : Outcome (Option Found) × Store). (continue r.0 shown_tree r.1).0)
        (get_tree_by_name-from_cache name s' c (from_cache-update_log id body s ∙ e))

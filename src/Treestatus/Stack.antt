-- ===== src/Treestatus/Stack.antt =====
-- `update_stack`, `revert_change` and `delete_stack` of landoapi/api/treestatus.py. A request runs in a
-- session that is discarded at its end, with what was not committed.
mod Examples
pub mod Restore
use lando_api.Common.{
  zero, ◌&&◌, string_eq, bool_eq, nat_eq, option_eq, suc, ◌+◌, length, ◌||◌, true, none, not,
  is_some, ◌==◌, elem, any, [], ◌∷◌, or_default, keep, map, if◌then◌else◌, find, Bool, some, ◌++◌,
  Option, String, List, ℕ,
}
use lando_api.Common.Exec.{
  integrity_error, for_each, lift, problem, key_error, attribute_error, returned, gets, raised,
  pure, raise, when, Outcome, Exec, ◌>>◌, ◌>>=◌,
}
use lando_api.Treestatus.Tree.{
  serialize_last_state, takes_landings, store_last_state, parse_tree_category, parse_tree_status,
  TreeStatus, load_last_state, CombinedTree, TreeState, Log, StatusChangeTree, StatusChange,
  LastState, Tree,
}
use lando_api.Treestatus.Store.{
  forget, commit, get_combined_trees, change_tables, find_tree, update_tree_log, update_tree_status,
  Found, get_tree_by_name, Store, Tables,
}
use lando_api.Common.Text.{or_text}

-- The body of `PATCH /stack/{id}` and of `PATCH /log/{id}`.
pub record EditBody : Type 0 where
  pub tags : Option (List String)
  pub reason : Option String

pub find_change : ℕ → Tables → Option StatusChange
find_change id d = find (λ c. c.id == id) d.changes

-- `status_change.trees`
pub trees_of : ℕ → Tables → List StatusChangeTree
trees_of id d = keep (λ c. c.stack_id == some id) d.change_trees

set_change_tree : ℕ → LastState → Tables → Tables
set_change_tree id state d = record d {
  change_trees =
      map (λ c. if c.id == id then record c { last_state = store_last_state state } else c)
        d.change_trees;
}

-- One tree of `update_stack`.
update_change_tree : EditBody → StatusChangeTree → Exec Store Unit
unfolding set_change_tree
update_change_tree body c = do
  let old = load_last_state c.last_state
  let new = record old {
    current = record old.current {
      tags = or_default body.tags old.current.tags;
      reason = or_default body.reason old.current.reason;
    };
  }
  update_tree_log new.current.log_id (some new.current.tags) (some new.current.reason)
  change_tables (set_change_tree c.id new)

set_change_reason : ℕ → Option String → Tables → Tables
set_change_reason id reason d = record d {
  changes =
      map (λ c. if c.id == id then record c { reason = or_default reason c.reason } else c)
        d.changes;
}

edit_change : EditBody → Option StatusChange → Exec Store EditBody
edit_change body none = raise (problem 404 "No stack found.")
edit_change body (some change) = do
  trees ← gets (λ s. trees_of change.id s.tables)
  for_each trees (update_change_tree body)
  change_tables (set_change_reason change.id body.reason)
  commit
  pure body

pub update_stack : ℕ → EditBody → Exec Store EditBody
unfolding find_change edit_change
update_stack id body = gets (λ s. find_change id s.tables) >>= edit_change body

restore_found : (user : String) → TreeState → Option Found → Exec Store Unit
restore_found user state none = pure tt
restore_found user state (some found) =
    update_tree_status user found.attached found.combined.model.tree (some state.status)
      (some state.reason) none state.tags

-- One tree of `revert_change`.
pub restore_tree : (user : String) → StatusChangeTree → Exec Store Unit
unfolding restore_found
restore_tree user c =
    get_tree_by_name c.tree >>= restore_found user (load_last_state c.last_state).old

-- Deleting the change sets the reference of its rows to null.
detach : ℕ → StatusChangeTree → StatusChangeTree
detach id c = if c.stack_id == some id then record c { stack_id = none } else c

pub drop_change : ℕ → Tables → Tables
unfolding detach
drop_change id d = record d {
  changes = keep (λ c. not (c.id == id)) d.changes;
  change_trees = map (detach id) d.change_trees;
}

pub revert_found : (user : String) → (revert : Bool) → Option StatusChange → Exec Store ℕ
revert_found user revert none = raise (problem 404 "No change found.")
revert_found user revert (some change) = do
  trees ← gets (λ s. trees_of change.id s.tables)
  when revert (for_each trees (restore_tree user))
  change_tables (drop_change change.id)
  commit
  pure change.id

pub revert_change : (user : String) → ℕ → (revert : Bool) → Exec Store ℕ
unfolding find_change
revert_change user id revert = gets (λ s. find_change id s.tables) >>= revert_found user revert

-- `revert not in {0, 1, None}`
pub delete_stack : (user : String) → ℕ → Option ℕ → Exec Store ℕ
delete_stack user id revert =
    if elem revert (some 0 ∷ some 1 ∷ none ∷ [])
    then revert_change user id (revert == some 1)
    else raise (problem 400 "Unexpected value for `revert`.")

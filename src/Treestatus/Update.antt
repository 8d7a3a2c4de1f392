-- ===== src/Treestatus/Update.antt =====
-- `update_trees` of landoapi/api/treestatus.py.
mod Examples
pub mod Shows
use lando_api.Common.{
  ◌&&◌, string_eq, bool_eq, nat_eq, option_eq, ◌+◌, length, true, none, not, is_some, ◌==◌, [], ◌∷◌,
  or_default, map, if◌then◌else◌, Bool, some, ◌++◌, Option, String, List, ℕ,
}
use lando_api.Common.Exec.{
  for_each, lift, problem, key_error, attribute_error, returned, gets, raised, pure, when, Outcome,
  Exec, ◌>>◌, ◌>>=◌,
}
use lando_api.Treestatus.Tree.{
  serialize_last_state, parse_tree_status, TreeStatus, CombinedTree, StatusChangeTree, StatusChange,
}
use lando_api.Treestatus.Store.{
  commit, get_combined_trees, change_tables, update_tree_status, Store, Tables,
}

-- The body of `PATCH /trees`.
pub record TreesBody : Type 0 where
  pub trees : List String
  pub status : Option String
  pub reason : Option String
  pub message_of_the_day : Option String
  pub tags : Option (List String)
  pub remember : Option Bool

-- The row that remembers the state of a tree before the update.
remember_row : ℕ → ℕ → List CombinedTree → CombinedTree → Outcome StatusChangeTree
remember_row id stack_id [] new = raised (key_error new.tree)
remember_row id stack_id (old ∷ rest) new =
    let other = remember_row id stack_id rest new in
    if old.tree == new.tree
    then returned (record {
      id = id;
      stack_id = some stack_id;
      tree = new.tree;
      last_state = serialize_last_state old.state new;
    })
    else other

add_change_tree : StatusChangeTree → Tables → Tables
add_change_tree c d = record d { change_trees = d.change_trees ++ c ∷ []; next_id = d.next_id + 1 }

add_change : StatusChange → Tables → Tables
add_change c d = record d { changes = d.changes ++ c ∷ []; next_id = d.next_id + 1 }

remember_each : ℕ → List CombinedTree → CombinedTree → Exec Store Unit
unfolding remember_row add_change_tree
remember_each stack_id old_trees new = do
  id ← gets (λ s. s.tables.next_id)
  row ← lift (remember_row id stack_id old_trees new)
  change_tables (add_change_tree row)

remember_change :
    (user : String)
    → TreesBody
    → TreeStatus
    → (reason : String) → List CombinedTree
    → Exec Store Unit
unfolding add_change remember_each
remember_change user body status reason old_trees = do
  id ← gets (λ s. s.tables.next_id)
  change_tables
      (add_change (record { id = id; changed_by = user; reason = reason; status = status }))
  new_trees ← gets (λ s. get_combined_trees body.trees s.tables)
  for_each new_trees (remember_each id old_trees)

-- The checks of the body and of the trees, in the order of the code.
pub check_body : TreesBody → (n_found : ℕ) → Outcome (Unit {0})
check_body body n_found =
    if not (n_found == length body.trees)
    then raised (problem 404 "Could not fetch all the requested trees.")
    else if not (is_some body.tags) && body.status == some "closed"
    then raised (problem 400 "Tags are required when closing a tree.")
    else if body.remember == some true
        && not (is_some body.status && is_some body.reason && is_some body.tags)
    then raised (problem 400 "Must specify status, reason and tags to remember the change.")
    else returned tt

pub new_status_of : Option String → Outcome (Option TreeStatus)
new_status_of none = returned none
new_status_of (some value) = elim (parse_tree_status value) [
  | returned status ↦ returned (some status)
  | raised e ↦ raised e
]

-- `new_status.value`, which no update without a status has.
response : Option TreeStatus → List CombinedTree → Outcome (List String)
response none [] = returned []
response none (t ∷ trees) = raised (attribute_error "value")
response (some status) trees = returned (map (λ t. t.tree) trees)

remember_if_asked :
    (user : String) → TreesBody → Option TreeStatus → List CombinedTree → Exec Store Unit
unfolding remember_change
remember_if_asked user body none old_trees = pure tt
remember_if_asked user body (some status) old_trees =
    when (body.remember == some true)
      (remember_change user body status (or_default body.reason "") old_trees)

pub update_each : (user : String) → TreesBody → Option TreeStatus → CombinedTree → Exec Store Unit
update_each user body status t =
    update_tree_status user true t.model.tree status body.reason body.message_of_the_day
      (or_default body.tags [])

-- The names of the updated trees stand for the entries of the response.
pub update_trees : (user : String) → TreesBody → Exec Store (List String)
unfolding check_body new_status_of remember_if_asked response
update_trees user body = do
  trees ← gets (λ s. get_combined_trees body.trees s.tables)
  lift (check_body body (length trees))
  status ← lift (new_status_of body.status)
  for_each trees (update_each user body status)
  remember_if_asked user body status trees
  commit
  lift (response status trees)

-- ===== src/Treestatus/Handlers.antt =====
-- The other handlers of landoapi/api/treestatus.py, and `is_open` of landoapi/treestatus.py.
mod Examples
pub mod Reading
use lando_api.Common.{
  zero, string_eq, bool_eq, nat_eq, option_eq, suc, ◌||◌, true, none, not, is_some, ◌==◌, any, [],
  ◌∷◌, keep, map, if◌then◌else◌, Bool, some, Option, String, List, ℕ,
}
use lando_api.Common.Exec.{
  integrity_error, lift, problem, returned, gets, raised, pure, raise, when, Outcome, Exec, ◌>>◌,
  ◌>>=◌,
}
use lando_api.Treestatus.Tree.{
  takes_landings, store_last_state, parse_tree_category, parse_tree_status, load_last_state,
  CombinedTree, Log, StatusChangeTree, Tree,
}
use lando_api.Treestatus.Store.{
  Found, forget, commit, change_tables, find_tree, update_tree_log, get_tree_by_name, Store, Tables,
}
use lando_api.Common.Text.{or_text}
use lando_api.Treestatus.Stack.{EditBody}

-- The body of `PUT /trees/{tree}`.
pub record TreeBody : Type 0 where
  pub tree : String
  pub status : String
  pub reason : String
  pub message_of_the_day : String
  pub category : String

new_tree : String → TreeBody → Outcome Tree
new_tree name body = elim (parse_tree_status body.status) [
  | raised e ↦ raised e
  | returned status ↦ elim (parse_tree_category body.category) [
    | raised e ↦ raised e
    | returned category ↦ returned (record {
      tree = name;
      status = status;
      reason = body.reason;
      message_of_the_day = body.message_of_the_day;
      category = category;
    })
  ]
]

-- The unique index refuses a second row with the name.
insert_tree : Tree → Exec Store Unit
insert_tree t s =
    if is_some (find_tree t.tree s.tables)
    then raise (problem 400 "Tree already exists.") s
    else (do change_tables (λ d. record d { trees = t ∷ d.trees }); commit) s

pub make_tree : String → TreeBody → Exec Store Tree
unfolding new_tree insert_tree
make_tree name body = do
  if not (body.tree == name) then raise (problem 400 "Tree names must match.") else pure tt
  t ← lift (new_tree name body)
  insert_tree t
  pure t

-- The foreign keys of logs and of remembered states refuse the deletion of their tree.
delete_row : String → Exec Store Unit
delete_row name s =
    if any (λ l. l.tree == name) s.tables.logs || any (λ c. c.tree == name) s.tables.change_trees
    then raise (integrity_error "foreign key") s
    else change_tables (λ d. record d { trees = keep (λ t. not (t.tree == name)) d.trees }) s

-- `remove_tree_by_name`
pub delete_tree : String → Exec Store String
unfolding delete_row
delete_tree name = do
  found ← gets (λ s. find_tree name s.tables)
  if is_some found then pure tt else raise (problem 404 "The tree does not exist.")
  delete_row name
  change_tables (λ d. record d { change_trees = keep (λ c. not (c.tree == name)) d.change_trees })
  commit
  forget name
  pure name

abbrev shown_tree : Option Found → Exec Store CombinedTree
shown_tree none = raise (problem 404 "The tree does not exist.")
shown_tree (some f) = pure f.combined

pub get_tree : String → Exec Store CombinedTree
get_tree name = get_tree_by_name name >>= shown_tree

abbrev answer_open : Option Found → Bool
answer_open none = true
answer_open (some f) = takes_landings f.combined.state.status

-- `is_open` of landoapi/treestatus.py: a tree that is not known takes landings.
pub is_open : String → Exec Store Bool
is_open name = do found ← get_tree_by_name name; pure (answer_open found)

-- `if reason:` and `if tags:`
text_or : Option String → String → String
text_or none old = old
text_or (some new) old = or_text new old

tags_or : Option (List String) → List String → List String
tags_or none old = old
tags_or (some []) old = old
tags_or (some (t ∷ tags)) old = t ∷ tags

update_remembered : ℕ → EditBody → StatusChangeTree → StatusChangeTree
unfolding text_or tags_or
update_remembered id body c =
    let old = load_last_state c.last_state in
    if old.current.log_id == some id
    then record c {
      last_state = store_last_state (record old {
        current = record old.current {
          reason = text_or body.reason old.current.reason;
          tags = tags_or body.tags old.current.tags;
        };
      });
    }
    else c

-- The rows that belong to a change.
update_if_stacked : ℕ → EditBody → StatusChangeTree → StatusChangeTree
unfolding update_remembered
update_if_stacked id body c = elim c.stack_id [ none ↦ c | some k ↦ update_remembered id body c ]

pub update_log : ℕ → EditBody → Exec Store Unit
unfolding update_if_stacked
update_log id body = when (is_some body.tags || is_some body.reason) (do
  update_tree_log (some id) body.tags body.reason
  change_tables (λ d. record d { change_trees = map (update_if_stacked id body) d.change_trees })
  commit)

first_logs : ℕ → List Log → List Log
first_logs zero logs = []
first_logs (suc n) [] = []
first_logs (suc n) (l ∷ logs) = l ∷ first_logs n logs

pub get_logs_for_tree : String → (limit_logs : Bool) → Tables → Outcome (List Log)
unfolding first_logs
get_logs_for_tree name limit_logs d =
    let logs = keep (λ l. l.tree == name) d.logs in
    if is_some (find_tree name d)
    then returned (if limit_logs then first_logs 5 logs else logs)
    else raised (problem 404 "The tree does not exist.")

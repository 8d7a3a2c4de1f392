-- ===== src/Treestatus/Store.antt =====
-- The tables, the session and the cache of the tree status, with the functions of
-- landoapi/api/treestatus.py that read and change them. Logs are kept newest first, which is the
-- order of `created_at`.
pub mod View
pub mod Coherent
pub mod Lookup
pub mod Updated
use lando_api.Common.{
  none, [], string_eq, ◌+◌, false, elem, not, ◌||◌, map, or_default, keep, is_some, nat_eq, true,
  ◌∷◌, if◌then◌else◌, ◌==◌, find, some, List, String, Option, Bool, ℕ,
}
use lando_api.Common.Exec.{
  lift, ◌>>◌, ◌>>=◌, ◌>>=◌, gets, problem, returned, Outcome, pure, when, modify, raise, Exec,
}
use lando_api.Treestatus.Tree.{
  get_combined_tree, StatusChangeTree, parse_tree_status, StatusChange, TreeStatus, CombinedTree,
  Tree, Log,
}
use lando_api.Common.Text.{is_truthy}

pub record Tables : Type 0 where
  pub trees : List Tree
  pub logs : List Log
  pub changes : List StatusChange
  pub change_trees : List StatusChangeTree
  pub next_id : ℕ

-- The tables as the session sees them, as they were committed, and the cache of `get_tree_by_name`.
pub record Store : Type 0 where
  pub tables : Tables
  pub committed : Tables
  pub cached : List CombinedTree

unfoldable pub find_tree : String → Tables → Option Tree
find_tree name d = find (λ t. t.tree == name) d.trees

-- The log that `order_by(Log.created_at.desc())` puts first.
unfoldable pub last_log : String → Tables → Option Log
last_log name d = find (λ l. l.tree == name) d.logs

abbrev pub joined : Option Tree → Option Log → Option CombinedTree
joined none l = none
joined (some t) l = some (get_combined_tree t l)

-- The row of the outer join that the query of `get_tree_by_name` returns.
unfoldable pub read_tree : String → Tables → Option CombinedTree
read_tree name d = joined (find_tree name d) (last_log name d)

unfoldable pub commit : Exec Store Unit
commit = modify (λ s. record s { committed = s.tables })

unfoldable pub change_tables : (Tables → Tables) → Exec Store Unit
change_tables f = modify (λ s. record s { tables = f s.tables })

unfoldable pub forget : String → Exec Store Unit
forget name = modify (λ s. record s { cached = keep (λ c. not (c.tree == name)) s.cached })

-- A tree with the test that its model belongs to the session: one from the cache does not, and a
-- write to it is lost.
pub record Found : Type 0 where
  pub attached : Bool
  pub combined : CombinedTree

remember_tree : Option CombinedTree → Exec Store (Option Found)
remember_tree none = pure none
remember_tree (some c) = do
  modify (λ s. record s { cached = c ∷ s.cached })
  pure (some (record { attached = true; combined = c }))

unfoldable pub from_cache : String → Store → Option CombinedTree
from_cache name s = find (λ c. c.tree == name) s.cached

-- The decorator `cache.memoize`: the second value is what the tables say.
cached_or : Option CombinedTree → Option CombinedTree → Exec Store (Option Found)
unfolding remember_tree
cached_or (some c) read = pure (some (record { attached = false; combined = c }))
cached_or none read = remember_tree read

pub get_tree_by_name : String → Exec Store (Option Found)
unfolding from_cache
get_tree_by_name name s = cached_or (from_cache name s) (read_tree name s.tables) s

-- `if trees:` is false for the empty list.
selected : List String → Tree → Bool
selected [] t = true
selected (n ∷ names) t = elem t.tree (n ∷ names)

unfoldable pub get_combined_trees : List String → Tables → List CombinedTree
unfolding selected
get_combined_trees names d =
    map (λ t. get_combined_tree t (last_log t.tree d)) (keep (selected names) d.trees)

-- The new row of a tree.
unfoldable pub revised : Option TreeStatus → (reason message : Option String) → Tree → Tree
revised status reason message t = record t {
  status = or_default status t.status;
  reason = or_default reason t.reason;
  message_of_the_day = or_default message t.message_of_the_day;
}

unfoldable pub write_tree : String → (Tree → Tree) → Tables → Tables
write_tree name f d = record d { trees = map (λ t. if t.tree == name then f t else t) d.trees }

unfoldable pub add_log : (user name : String) → TreeStatus → String → List String → Tables → Tables
add_log user name status reason tags d = record d {
  logs =
      record {
        id = d.next_id;
        tree = name;
        changed_by = user;
        status = status;
        reason = reason;
        tags = tags;
      }
      ∷ d.logs;
  next_id = d.next_id + 1;
}

-- `TreeStatus("no change")` raises.
logged_status : Option TreeStatus → Outcome TreeStatus
logged_status none = parse_tree_status "no change"
logged_status (some status) = returned status

-- `status or reason`: a member of the enum is true.
is_logged : Option TreeStatus → Option String → Bool
is_logged (some status) reason = true
is_logged none none = false
is_logged none (some reason) = is_truthy reason

unfoldable pub update_tree_status :
    (user : String)
    → (attached : Bool) → (name : String) → Option TreeStatus
    → (reason message : Option String) → (tags : List String) → Exec Store Unit
unfolding revised logged_status is_logged
update_tree_status user attached name status reason message tags = do
  when attached (change_tables (write_tree name (revised status reason message)))
  when (is_logged status reason) (do
    logged ← lift (logged_status status)
    change_tables (add_log user name logged (or_default reason "no change") tags))
  forget name

revise_log : ℕ → Option (List String) → Option String → Log → Log
revise_log id tags reason l =
    if l.id == id
    then record l { tags = or_default tags l.tags; reason = or_default reason l.reason }
    else l

is_log : ℕ → Log → Bool
is_log id l = l.id == id

-- A null id finds no log.
find_log : Option ℕ → Tables → Option Log
find_log none d = none
find_log (some id) d = find (is_log id) d.logs

write_log : Option (List String) → Option String → Option Log → Exec Store Unit
write_log tags reason none = raise (problem 404 "No tree log found.")
write_log tags reason (some l) =
    change_tables (λ d. record d { logs = map (revise_log l.id tags reason) d.logs })

pub update_tree_log : Option ℕ → Option (List String) → Option String → Exec Store Unit
unfolding write_log find_log is_log
update_tree_log id tags reason =
    when (is_some tags || is_some reason)
      (gets (λ s. find_log id s.tables) >>= write_log tags reason)

-- ===== src/Treestatus/Tree.antt =====
-- landoapi/models/treestatus.py, and the combined view of a tree in landoapi/api/treestatus.py.
use lando_api.Common.{
  string_eq, ◌∷◌, ◌==◌, false, if◌then◌else◌, List, none, true, String, Bool, [], or_default,
  Option, some, ℕ,
}
use lando_api.Common.Exec.{value_error, raised, returned, Outcome}
use lando_api.Common.Text.{text}

pub data TreeCategory : Type 0 where
  development release_stabilization try comm_repos uncategorized : TreeCategory

pub data TreeStatus : Type 0 where
  open_tree closed_tree approval_required : TreeStatus

-- `TreeStatus.is_open`
abbrev pub takes_landings : TreeStatus → Bool
takes_landings open_tree = true
takes_landings closed_tree = false
takes_landings approval_required = true

abbrev pub tree_status_value : TreeStatus → String
tree_status_value open_tree = "open"
tree_status_value closed_tree = "closed"
tree_status_value approval_required = "approval required"

-- `TreeStatus(value)`
unfoldable pub parse_tree_status : String → Outcome TreeStatus
parse_tree_status value =
    if value == "open"
    then returned open_tree
    else if value == "closed"
    then returned closed_tree
    else if value == "approval required"
    then returned approval_required
    else raised (value_error (text ("'" ∷ value ∷ "' is not a valid TreeStatus" ∷ [])))

-- `TreeCategory(value)`
pub parse_tree_category : String → Outcome TreeCategory
parse_tree_category value =
    if value == "development"
    then returned development
    else if value == "release_stabilization"
    then returned release_stabilization
    else if value == "try"
    then returned try
    else if value == "comm_repos"
    then returned comm_repos
    else if value == "other"
    then returned uncategorized
    else raised (value_error (text ("'" ∷ value ∷ "' is not a valid TreeCategory" ∷ [])))

pub record Tree : Type 0 where
  pub tree : String
  pub status : TreeStatus
  pub reason : String
  pub message_of_the_day : String
  pub category : TreeCategory

pub record Log : Type 0 where
  pub id : ℕ
  pub tree : String
  pub changed_by : String
  pub status : TreeStatus
  pub reason : String
  pub tags : List String

-- The part of a tree's state that a change replaces.
pub record TreeState : Type 0 where
  pub status : TreeStatus
  pub reason : String
  pub tags : List String
  pub log_id : Option ℕ

-- A `last_state` as it is stored: older rows lack fields.
pub record StoredState : Type 0 where
  pub status : Option TreeStatus
  pub reason : Option String
  pub tags : Option (List String)
  pub log_id : Option ℕ
  pub current_status : Option TreeStatus
  pub current_reason : Option String
  pub current_tags : Option (List String)
  pub current_log_id : Option ℕ

-- A `last_state` with every field.
pub record LastState : Type 0 where
  pub old : TreeState
  pub current : TreeState

-- `get_default_tree`, without its category.
abbrev pub get_default_tree : TreeState
get_default_tree = record { status = closed_tree; reason = "New tree"; tags = []; log_id = none }

pub load_last_state : StoredState → LastState
load_last_state s = record {
  old = record {
    status = or_default s.status get_default_tree.status;
    reason = or_default s.reason get_default_tree.reason;
    tags = or_default s.tags get_default_tree.tags;
    log_id = s.log_id;
  };
  current = record {
    status = or_default s.current_status get_default_tree.status;
    reason = or_default s.current_reason get_default_tree.reason;
    tags = or_default s.current_tags get_default_tree.tags;
    log_id = s.current_log_id;
  };
}

-- The state that is written back: every field is there.
pub store_last_state : LastState → StoredState
store_last_state s = record {
  status = some s.old.status;
  reason = some s.old.reason;
  tags = some s.old.tags;
  log_id = s.old.log_id;
  current_status = some s.current.status;
  current_reason = some s.current.reason;
  current_tags = some s.current.tags;
  current_log_id = s.current.log_id;
}

-- A row of `status_change_tree`; `stack_id` is null when its change was deleted.
pub record StatusChangeTree : Type 0 where
  pub id : ℕ
  pub stack_id : Option ℕ
  pub tree : String
  pub last_state : StoredState

pub record StatusChange : Type 0 where
  pub id : ℕ
  pub changed_by : String
  pub reason : String
  pub status : TreeStatus

-- A tree with the state that its last log gives it.
pub record CombinedTree : Type 0 where
  pub tree : String
  pub message_of_the_day : String
  pub category : TreeCategory
  pub state : TreeState
  pub model : Tree

-- The state of a tree with its last log, if it has one.
unfoldable pub state_of : Tree → Option Log → TreeState
state_of t none = record {
  status = t.status;
  reason = t.reason;
  tags = get_default_tree.tags;
  log_id = get_default_tree.log_id;
}
state_of t (some l) = record {
  status = l.status;
  reason = l.reason;
  tags = l.tags;
  log_id = some l.id;
}

unfoldable pub get_combined_tree : Tree → Option Log → CombinedTree
unfolding state_of
get_combined_tree t l = record {
  tree = t.tree;
  message_of_the_day = t.message_of_the_day;
  category = t.category;
  state = state_of t l;
  model = t;
}

pub serialize_last_state : TreeState → CombinedTree → StoredState
serialize_last_state old_tree new_tree =
    store_last_state (record { old = old_tree; current = new_tree.state })

-- ===== src/Treestatus/Samples.antt =====
-- Small tables for the examples: two trees, one of which was closed by a change.
use lando_api.Common.{none, some, [], ◌∷◌}
use lando_api.Treestatus.Store.{Tables, Store}
use lando_api.Treestatus.Tree.{
  closed_tree, open_tree, development, Tree, CombinedTree, StatusChangeTree, StatusChange, Log,
}

abbrev pub autoland : Tree
autoland = record {
  tree = "autoland";
  status = closed_tree;
  reason = "bustage";
  message_of_the_day = "";
  category = development;
}

abbrev pub closing_log : Log
closing_log = record {
  id = 1;
  tree = "autoland";
  changed_by = "sheriff";
  status = closed_tree;
  reason = "bustage";
  tags = "checkin_test" ∷ [];
}

abbrev pub closing : StatusChange
closing = record { id = 2; changed_by = "sheriff"; reason = "bustage"; status = closed_tree }

abbrev pub closing_tree : StatusChangeTree
closing_tree = record {
  id = 3;
  stack_id = some 2;
  tree = "autoland";
  last_state = record {
    status = some open_tree;
    reason = some "";
    tags = some [];
    log_id = none;
    current_status = some closed_tree;
    current_reason = some "bustage";
    current_tags = some ("checkin_test" ∷ []);
    current_log_id = some 1;
  };
}

abbrev pub tables : Tables
tables = record {
  trees = autoland ∷ record autoland { tree = "try"; status = open_tree; reason = "" } ∷ [];
  logs = closing_log ∷ [];
  changes = closing ∷ [];
  change_trees = closing_tree ∷ [];
  next_id = 4;
}

abbrev pub cached_tree : CombinedTree
cached_tree = record {
  tree = "autoland";
  message_of_the_day = "";
  category = development;
  state = record {
    status = closed_tree;
    reason = "bustage";
    tags = "checkin_test" ∷ [];
    log_id = some 1;
  };
  model = autoland;
}

abbrev pub store : Store
store = record { tables = tables; committed = tables; cached = cached_tree ∷ [] }

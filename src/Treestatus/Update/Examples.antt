-- ===== src/Treestatus/Update/Examples.antt =====
-- Updates on small tables.
use lando_api.Common.{refl, ◌≡◌, String, none, some, [], ◌∷◌}
use lando_api.Treestatus.Update.{update_trees, new_status_of, check_body, TreesBody}
use lando_api.Treestatus.Store.{Store, last_log, find_tree, get_combined_trees}
use lando_api.Treestatus.Tree.{open_tree, parse_tree_status, state_of, get_combined_tree}
use lando_api.Treestatus.Samples.{store}
use lando_api.Common.Exec.{value_error, returned, raised}
use lando_api.Treestatus.Update.Shows.{
  update_trees-AreUpdated, new_values, update_trees-no_status, AreUpdated,
}

abbrev reopening : TreesBody
reopening = record {
  trees = "autoland" ∷ [];
  status = some "open";
  reason = some "fixed";
  message_of_the_day = none;
  tags = none;
  remember = none;
}

update_trees-AreUpdated_example :
    (s' : Store) × (update_trees "sheriff" reopening store ≡ (returned ("autoland" ∷ []), s'))
    × AreUpdated
        (new_values reopening open_tree)
        (get_combined_trees ("autoland" ∷ []) store.tables)
        store
        s'
    × (s'.committed ≡ s'.tables)
unfolding get_combined_trees find_tree last_log get_combined_tree state_of check_body new_status_of
    parse_tree_status
update_trees-AreUpdated_example =
    update_trees-AreUpdated "sheriff" reopening store open_tree refl refl refl

abbrev explaining : TreesBody
explaining = record reopening { status = none }

update_trees-no_status_example :
    (message : String) × ((update_trees "sheriff" explaining store).0
      ≡ raised (value_error message))
    × ((update_trees "sheriff" explaining store).1.committed ≡ store.committed)
unfolding get_combined_trees find_tree last_log get_combined_tree state_of check_body
update_trees-no_status_example =
    update_trees-no_status "sheriff" explaining store {reason = "fixed"} refl refl refl refl refl

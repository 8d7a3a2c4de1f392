-- ===== src/Treestatus/Handlers/Examples.antt =====
-- What a reader sees of small tables.
use lando_api.Common.{refl, ◌≡◌, none, some}
use lando_api.Treestatus.Stack.{EditBody}
use lando_api.Treestatus.Store.{Store, from_cache}
use lando_api.Treestatus.Handlers.{update_log, get_tree}
use lando_api.Treestatus.Samples.{cached_tree, store}
use lando_api.Common.Exec.{returned}
use lando_api.Treestatus.Handlers.Reading.{get_tree-update_log}

abbrev edit : EditBody
edit = record { tags = none; reason = some "infrastructure" }

get_tree-update_log_example :
    (get_tree "autoland" (update_log 1 edit store).1).0 ≡ returned cached_tree
unfolding from_cache
get_tree-update_log_example = get_tree-update_log "autoland" 1 edit store cached_tree refl

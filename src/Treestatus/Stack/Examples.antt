-- ===== src/Treestatus/Stack/Examples.antt =====
-- The reversal of a change on small tables.
use lando_api.Common.{refl, ◌≡◌, true}
use lando_api.Treestatus.Stack.{revert_change, trees_of, find_change}
use lando_api.Treestatus.Stack.Restore.{IsReverted, revert_change-IsReverted}
use lando_api.Treestatus.Store.{Store, find_tree}
use lando_api.Treestatus.Samples.{closing, store}
use lando_api.Common.Exec.{returned}

revert_change-IsReverted_example :
    (s' : Store) × (revert_change "sheriff" 2 true store ≡ (returned 2, s'))
    × IsReverted "sheriff" 2 store s'
unfolding find_change trees_of find_tree
revert_change-IsReverted_example =
    revert_change-IsReverted "sheriff" 2 closing store refl (refl, tt) (tt, tt) (refl, tt)

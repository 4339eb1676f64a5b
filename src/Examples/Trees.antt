-- ===== src/Examples/Trees.antt =====
-- A tree of two directories, listed by several threads.
use my_sync.Common.{◌≡◌, refl, ◌++◌, true, false, none, some, [], ◌∷◌}
use my_sync.Common.Int.{pos}
use my_sync.Common.Key.{Key, key_lt}
use my_sync.Object.{Object, entry}
use my_sync.Produce.Compare.{Env}
use my_sync.Start.Tree.{World, missing, listed_in, child_prefixes}
use my_sync.Start.Tree.Skipped.{child_prefixes-start_below}
use my_sync.Examples.{env_delete, config_with}
use my_sync.Examples.Starting.{two_storages}

-- The directory `p/q/`.
abbrev prefix_q : Key
prefix_q = 112 ∷ 47 ∷ 113 ∷ 47 ∷ []

abbrev dir_q : Object
dir_q = entry (record { key = prefix_q; size = pos 0; mtime = 0; is_dir = true; file = none })

abbrev small_tree : World
small_tree = record {
  near = λ k. two_storages;
  source_pages = λ k after. some (record { objs = dir_q ∷ []; has_more = false }) ∷ [];
  target_pages = λ k after. [];
  source_head = λ k. missing;
  target_head = λ k. missing;
  source_reached = λ k. 0;
  target_reached = λ k. 0;
  goes_on = λ k. true;
  list_threads = 4;
}

abbrev env_start : Env
env_start = record env_delete {
  config = record (config_with []) { start = 112 ∷ 47 ∷ 113 ∷ 47 ∷ 97 ∷ [] };
}

child_prefixes-start_below_example :
    (listed_in prefix_q (child_prefixes small_tree env_start [] (dir_q ∷ [])) ≡ false)
    × (key_lt (prefix_q ++ (97 ∷ [])) env_start.config.start ≡ false)
child_prefixes-start_below_example =
    child_prefixes-start_below small_tree env_start prefix_q [] 97 [] (dir_q ∷ []) refl

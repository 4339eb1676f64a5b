-- ===== src/Examples/Decisions.antt =====
-- Gates, their records, rules and the filter at concrete inputs.
use my_sync.Common.{map, ◌+◌, ◌≡◌, ◌≤◌, ◌<◌, ◌↔◌, refl, true, false, none, some, [], ◌∷◌}
use my_sync.Common.Int.{pos}
use my_sync.Common.Key.{key_eq, Key-discrete}
use my_sync.Common.Map
use my_sync.Common.Map.{Map, key_keys, number_keys, ◌=?◌}
use my_sync.Object.{mtime}
use my_sync.Gate.{
  first_gate, second_gate, truncate, gate_skip, action_send, success, record_success,
}
use my_sync.Gate.Decision.{first_gate_skips, second_gate_lem}
use my_sync.Rules.{
  match_leveled_path, levels_allowed, split, level_allowed, match_suffix, unsnoc, index_two_stars,
}
use my_sync.Rules.Pruning.{match_leveled_path-prefix}
use my_sync.Prefetch.{comes, expires, prefetch}
use my_sync.Prefetch.Batches.{tabled, prefetch-tabled}
use my_sync.Buffer.{new_buffer, run_steps}
use my_sync.Buffer.Delivery.{count, tally, run_steps-accepted}
use my_sync.Examples.{key_a, object_a, object_b, exclude_p, no_records, some_steps}

first_gate_skips_example :
    (first_gate object_a (some (record_success object_a (pos 5))) false ≡ gate_skip) ↔ (
      (false ≡ false)
      × (success ≡ success)
      × (truncate (mtime object_a) ≤ truncate (mtime object_a)))
unfolding record_success mtime
first_gate_skips_example = first_gate_skips object_a (record_success object_a (pos 5)) false

second_gate_lem_example :
    (second_gate object_a none false ≡ action_send)
    × (second_gate object_a (some object_b) true ≡ action_send)
    × ((second_gate object_a (some object_b) false ≡ action_send)
        ↔ (mtime object_b < mtime object_a))
second_gate_lem_example = second_gate_lem object_a object_b false

match_leveled_path-prefix_example : match_leveled_path key_eq exclude_p (112 ∷ 47 ∷ key_a) ≡ false
unfolding match_leveled_path levels_allowed split level_allowed match_suffix unsnoc Key-discrete
    index_two_stars
match_leveled_path-prefix_example = match_leveled_path-prefix key_eq exclude_p (112 ∷ []) key_a refl

prefetch-tabled_example :
    prefetch no_records (comes (some object_a) ∷ expires ∷ comes none ∷ [])
    ≡ map (tabled (λ k. none)) (some object_a ∷ none ∷ [])
unfolding Map.get
prefetch-tabled_example =
    prefetch-tabled no_records (λ k. none) (λ n ks. ([], refl, λ k h. refl))
      (comes (some object_a) ∷ expires ∷ comes none ∷ [])

run_steps-accepted_example :
    tally (λ rec. true) (run_steps (new_buffer 2) some_steps)
    ≡ tally (λ rec. true) (new_buffer 2) + 3
unfolding count new_buffer
run_steps-accepted_example = run_steps-accepted (λ rec. true) (new_buffer 2) some_steps

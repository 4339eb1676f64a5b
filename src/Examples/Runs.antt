-- ===== src/Examples/Runs.antt =====
-- Runs of the producer and of a scan.
use my_sync.Common.{true, ◌≡◌, refl, none, some, [], ◌∷◌, arith, All}
use my_sync.Common.Int.{pos, negsuc}
use my_sync.Common.Key.{key_lt}
use my_sync.Common.Map.{key_keys, number_keys}
use my_sync.Object.{mtime, base, key, size, is_dir, with_size, mark_delete_dst}
use my_sync.Produce.Effects.{State}
use my_sync.Produce.Extra.{is_own_checkpoint}
use my_sync.Produce.{verdict_of, produce, stopped}
use my_sync.Gate.{record_success}
use my_sync.Produce.Compare.{Env, skip, use_first_gate}
use my_sync.Produce.Pending.{IsRecorded, produce-IsRecorded}
use my_sync.Produce.Protection.{verdict_of-known}
use my_sync.Produce.Rule.{EndsIn}
use my_sync.Produce.Safety.{produce-Safe, EndedSafe, kept}
use my_sync.Produce.Balance.{produce-Balanced, Balanced, OneOpen}
use my_sync.Produce.Limit.{produce-WithinLimit, WithinLimit, OneClaimed, produce_drops_claimed}
use my_sync.Filter.Laws.{objects}
use my_sync.Scan.{scan}
use my_sync.Scan.Coverage.{Covers, scan-Covers}
use my_sync.Scan.Verdicts.{IsRight, scan-IsRight}
use my_sync.Examples.{
  manager_p, object_a, object_b, env_delete, start_state, listed_b, target_b, target_ab,
}

produce-Safe_example :
    EndedSafe
      (kept env_delete listed_b)
      (produce env_delete listed_b target_ab (start_state (pos 9)))
unfolding key base size is_dir key_lt
produce-Safe_example =
    produce-Safe env_delete listed_b target_ab (start_state (pos 9)) ((λ e. ground (arith, e)), tt)
      (tt, tt) (tt, (refl, tt)) refl refl

produce-Balanced_example :
    EndsIn Balanced OneOpen (produce env_delete listed_b target_ab (start_state (negsuc 0)))
produce-Balanced_example =
    produce-Balanced env_delete listed_b target_ab (start_state (negsuc 0)) refl

produce-WithinLimit_example :
    EndsIn
      (WithinLimit 3)
      (OneClaimed 3)
      (produce env_delete listed_b target_ab (start_state (pos 3)))
produce-WithinLimit_example =
    produce-WithinLimit 3 env_delete listed_b target_ab (start_state (pos 3)) refl refl refl

produce_drops_claimed_example :
    (st' : State) × (produce env_delete listed_b (some object_a ∷ target_b) (start_state (pos 2))
      ≡ stopped st')
    × (st'.tasks ≡ with_size object_a mark_delete_dst ∷ [])
    × (st'.skipped ≡ 0)
    × (st'.src_delay_del ≡ [])
    × (st'.total_handled ≡ 2)
unfolding key base is_dir is_own_checkpoint key_lt
produce_drops_claimed_example =
    produce_drops_claimed env_delete object_b object_a none [] target_b (start_state (pos 2)) refl
      refl refl refl refl refl

scan-Covers_example : Covers target_ab target_b (scan target_ab target_b)
scan-Covers_example = scan-Covers target_ab target_b

scan-IsRight_example :
    All (IsRight (objects target_ab) (objects target_b)) (scan target_ab target_b).rows
unfolding key base key_lt
scan-IsRight_example = scan-IsRight target_ab target_b (tt, (refl, tt)) (tt, tt)

abbrev checkpointed : State
checkpointed = record (start_state (pos 9)) { manager = some manager_p }

produce-IsRecorded_example :
    EndsIn
      (IsRecorded env_delete)
      (IsRecorded env_delete)
      (produce env_delete listed_b target_ab checkpointed)
produce-IsRecorded_example = produce-IsRecorded env_delete listed_b target_ab checkpointed tt

abbrev env_gate : Env
env_gate = record env_delete { gate = true; gate_buffer = true }

verdict_of-known_example :
    verdict_of env_gate object_b (some (record_success object_b (pos 6))) none ≡ skip
unfolding use_first_gate record_success mtime base
verdict_of-known_example =
    verdict_of-known env_gate object_b (record_success object_b (pos 6)) none refl refl
      (omega arith)

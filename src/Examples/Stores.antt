-- ===== src/Examples/Stores.antt =====
-- The multipart uploads and the checkpoint at concrete inputs.
use my_sync.Common.{
  ℕ, Option, not, ◌&&◌, ◌==◌, ◌≡◌, refl, none, some, [], ◌∷◌, arith, if◌then◌else◌,
}
use my_sync.Common.Key.{Key-discrete}
use my_sync.Common.Map
use my_sync.Common.Map.{Map, key_keys, number_keys, ◌=?◌}
use my_sync.Uploads.{is_valid, new_store, saved_state, put_multipart_checkpoint}
use my_sync.Uploads.Laws.{saved_part-put_multipart_checkpoint, saved_part}
use my_sync.Checkpoint.{Manager, restore_prefix}
use my_sync.Checkpoint.Outstanding.{is_outstanding}
use my_sync.Checkpoint.History.{
  fails, apply, owed_after, is_outstanding-apply, restore_prefix-Restores, Restores,
}
use my_sync.Completion.{Failure, errno_temporary, Tracker, track_completion}
use my_sync.Completion.Owed.{owes, owes-track_completion}
use my_sync.Examples.{config_with, key_a, prefix_p, state_u, state_p, manager_p}

saved_part-put_multipart_checkpoint_example :
    saved_part (put_multipart_checkpoint new_store key_a state_u) key_a 1 ≡ none
unfolding Map.get new_store is_valid saved_state
saved_part-put_multipart_checkpoint_example =
    saved_part-put_multipart_checkpoint new_store key_a 1 state_u (λ k ptr h. ground arith) refl

is_outstanding-apply_example :
    is_outstanding (apply manager_p (fails key_a)) prefix_p key_a
    ≡ owed_after
        (Map.get manager_p.key_prefix)
        (is_outstanding manager_p)
        (fails key_a)
        prefix_p
        key_a
is_outstanding-apply_example = is_outstanding-apply manager_p (fails key_a) prefix_p key_a

restore_prefix-Restores_example : Restores manager_p prefix_p (restore_prefix manager_p prefix_p)
unfolding Map.get Key-discrete
restore_prefix-Restores_example = restore_prefix-Restores manager_p prefix_p state_p refl refl refl

-- A storage that is busy once.
abbrev busy_once : ℕ → Option Failure
busy_once n = if n == 0 then some errno_temporary else none

abbrev manager_tracked : Manager
manager_tracked = record manager_p { key_prefix = (key_a, prefix_p) ∷ [] }

abbrev tracker_p : Tracker
tracker_p = record { manager = some manager_tracked; failed_keys = []; completed_keys = [] }

owes-track_completion_example :
    owes (track_completion (config_with []) key_a none tracker_p).manager prefix_p key_a
    ≡ not ((prefix_p =? prefix_p) && (key_a =? key_a))
      && is_outstanding manager_tracked prefix_p key_a
unfolding Map.get Key-discrete
owes-track_completion_example =
    owes-track_completion (config_with []) manager_tracked prefix_p prefix_p key_a key_a none
      tracker_p refl refl refl refl

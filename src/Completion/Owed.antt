-- ===== src/Completion/Owed.antt =====
-- What a worker's result does to the keys that are outstanding in the checkpoint.
use my_sync.Common.{
  ◌≡◌, Bool, true, false, not, ◌&&◌, Option, none, some, arith, is_empty, if◌then◌else◌,
}
use my_sync.Common.Key.{Key}
use my_sync.Common.Map
use my_sync.Common.Map.{Map, key_keys, ◌=?◌}
use my_sync.Config.{Config}
use my_sync.Checkpoint.{Manager}
use my_sync.Checkpoint.Outstanding.{
  is_outstanding, is_outstanding-mark_completed, is_outstanding-mark_failed,
}
use my_sync.Completion.{Failure, counts_as_failed, Tracker, track_completion}

-- Outstanding under the prefix, with a checkpoint.
abbrev pub owes : Option Manager → Key → Key → Bool
owes none p k = false
owes (some m) p k = is_outstanding m p k

-- On a single machine with a checkpoint, a task that ends without an error, or for which the object
-- does not exist, is no longer outstanding under the prefix that its key is tracked to; every other
-- error leaves it outstanding. Nothing changes for any other key or prefix.
pub owes-track_completion :
    (config : Config) (m : Manager) (p q j k : Key) (err : Option Failure) (t : Tracker)
    → config.enable_checkpoint ≡ true
    → is_empty config.manager ≡ true
    → t.manager ≡ some m
    → Map.get m.key_prefix j ≡ some p
    → owes (track_completion config j err t).manager q k ≡ (
        if counts_as_failed err
        then is_outstanding m q k
        else (not ((p =? q) && (j =? k)) && is_outstanding m q k))
unfolding track_completion
owes-track_completion config m p q j k err t on single kept tracked = ground (
  arith,
  on,
  single,
  kept,
  tracked,
  is_outstanding-mark_completed m j q k,
  is_outstanding-mark_failed m j q k,
)

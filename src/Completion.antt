-- ===== src/Completion.antt =====
-- How a worker ends a task: `try`, `shouldRetry`, `deleteObj` (pkg/sync/sync.go), and
-- `trackCheckpointCompletion` (pkg/sync/checkpoint.go).
pub mod Retry
pub mod Owed
use my_sync.Common.{
  ℕ, zero, suc, ◌+◌, Bool, true, false, not, ◌&&◌, Option, none, some, List, [], ◌∷◌, ◌++◌,
  if◌then◌else◌, is_empty,
}
use my_sync.Common.Key.{Key}
use my_sync.Config.{Config}
use my_sync.Checkpoint.{Manager, mark_completed, mark_failed}

-- The errors that the code tells apart: `utils.ErrSkipped`, `utils.ErrExtlink`, `os.ErrNotExist`
-- as an error number and otherwise, the error numbers that are worth a retry, the other error
-- numbers, and all other errors.
pub data Failure : Type 0 where
  err_skipped err_extlink errno_not_exist err_not_exist errno_temporary errno_other err_other :
      Failure

-- `shouldRetry`, with `none` for nil.
unfoldable pub should_retry : Option Failure → Bool
should_retry none = false
should_retry (some err_skipped) = false
should_retry (some err_extlink) = false
should_retry (some errno_temporary) = true
should_retry (some errno_not_exist) = false
should_retry (some errno_other) = false
should_retry (some err_not_exist) = true
should_retry (some err_other) = true

-- The loop of `try`, from the call numbered `i` on: how many calls were made in all, and the
-- last error.
unfoldable pub try_from : ℕ → ℕ → Option Failure → (ℕ → Option Failure) → ℕ × Option Failure
try_from i zero last f = (i, last)
try_from i (suc more) last f =
    let rest = try_from (suc i) more (f i) f in if should_retry (f i) then rest else (suc i, f i)

-- `try`
unfoldable pub try_calls : ℕ → (ℕ → Option Failure) → ℕ × Option Failure
unfolding try_from
try_calls n f = try_from 0 n none f

-- The counters of `deleteObj`, and the calls of `Delete` that it has made.
pub record Deletions : Type 0 where
  pub deleted : ℕ
  pub failed : ℕ
  pub calls : ℕ

-- `deleteObj`: `delete i` is the answer of the storage to the call numbered `i`.
unfoldable pub delete_obj : (ℕ → Option Failure) → Bool → Deletions → Deletions × Option Failure
unfolding try_calls
delete_obj delete true ds = (record ds { deleted = suc ds.deleted }, none)
delete_obj delete false ds =
    let (calls, err) = try_calls 3 delete in
    elim err [
      | none ↦
          (record { deleted = suc ds.deleted; failed = ds.failed; calls = ds.calls + calls }, none)
      | some e ↦ (
        record { deleted = ds.deleted; failed = suc ds.failed; calls = ds.calls + calls },
        some e,
      )
    ]

-- An error counts as a failure unless the object does not exist.
abbrev pub counts_as_failed : Option Failure → Bool
counts_as_failed none = false
counts_as_failed (some errno_not_exist) = false
counts_as_failed (some err_not_exist) = false
counts_as_failed (some _) = true

-- The buffers of a cluster's worker, and the manager otherwise.
pub record Tracker : Type 0 where
  pub manager : Option Manager
  pub failed_keys : List Key
  pub completed_keys : List Key

abbrev with_outcome : Bool → Key → Option Manager → Option Manager
with_outcome bad k none = none
with_outcome bad k (some m) = some (if bad then mark_failed m k else mark_completed m k)

-- `trackCheckpointCompletion`
unfoldable pub track_completion : Config → Key → Option Failure → Tracker → Tracker
track_completion config k err t =
    if not config.enable_checkpoint
    then t
    else if not (is_empty config.manager)
    then (if counts_as_failed err
        then record t { failed_keys = t.failed_keys ++ (k ∷ []) }
        else record t { completed_keys = t.completed_keys ++ (k ∷ []) })
    else record t { manager = with_outcome (counts_as_failed err) k t.manager }

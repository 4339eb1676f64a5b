-- ===== src/Worker.antt =====
-- `worker` (pkg/sync/sync.go): what is done for one task. This file has what a worker changes, and
-- what the storages answer during the task; its children have the steps of the task. A panic, which
-- ends the process, is `none`. The copied and checked bytes, which only the display reads, and the calls that set
-- an object's time, whose errors are only logged, are left out.
pub mod Check
pub mod Steps
pub mod Task
pub mod Removal
pub mod Counting
pub mod Good
pub mod Dry
pub mod Endings
pub mod Removing
pub mod Rows
use mathlib.Core.Option
use my_sync.Common.{
  ℕ, suc, Bool, true, false, not, ◌&&◌, ◌||◌, Option, none, some, List, [], ◌∷◌, ◌++◌,
  if◌then◌else◌,
}
use my_sync.Common.Int.{ℤ, ◌+ℤ◌}
use my_sync.Common.Key.{Key}
use my_sync.Config.{Config}
use my_sync.Object.{Object, key, size, FileAttrs, as_file, without_size, is_symlink}
use my_sync.Gate.{SyncRecord}
use my_sync.Uploads.{Store}
use my_sync.Completion.{Failure, Deletions, Tracker, delete_obj, track_completion}
use my_sync.Contents.{Reader, Crc}
use my_sync.Parts.{Range}
use my_sync.Copy.{Result}
use my_sync.Copy.Data.{Endpoints, DataAnswers}
use my_sync.Produce.Effects.{State, incr_handled, untrack_scanned}

-- `ObjectStatus` of a row of the database.
pub data ObjectStatus : Type 0 where
  row_copied row_skipped row_failed row_deleted : ObjectStatus

-- A call that changes a storage.
pub data Change : Type 0 where
  deleted_src deleted_dst : Key → Change
  copied_to linked_to : Key → Change
  owner_set : Key → Key → Key → Change
  mode_set : Key → ℕ → Change

-- The options and services of a run. `keeps` are the states of rows that the database takes,
-- `file_system` whether the destination is a `FileSystem`, `src_links` and `dst_links` whether the
-- storages are a `SupportSymlink`, and `message` is the text of an error.
pub record WorkEnv : Type 0 where
  pub config : Config
  pub crc : Crc
  pub ends : Endpoints
  pub db : Bool
  pub keeps : ObjectStatus → Bool
  pub gate_buffer : Bool
  pub file_system : Bool
  pub src_links : Bool
  pub dst_links : Bool
  pub message : Failure → Key

-- What a worker changes: the state that it shares with `produce`, the counters, the rows of the
-- database, the changes of the storages, the buffers and the uploads of a cluster's worker.
pub record Work : Type 0 where
  pub run : State
  pub copied : ℕ
  pub checked : ℕ
  pub deletions : Deletions
  pub rows : List (Key × ℤ × ObjectStatus)
  pub changes : List Change
  pub completed_keys : List Key
  pub failed_keys : List Key
  pub worker_uploads : Option Store

-- What one comparison of both objects reads: the links, where a storage has them, the bodies, and the
-- order in which the parts are compared.
pub record Reads : Type 0 where
  pub src_link : Option (Result Key)
  pub dst_link : Option (Result Key)
  pub src_reader : Reader
  pub dst_reader : Reader
  pub order : List Range

-- What the storages answer during one task. The functions of a number are the answers to the calls of
-- a loop.
pub record TaskAnswers : Type 0 where
  pub delete : ℕ → Option Failure
  pub before : ℕ → Reads
  pub after : ℕ → Reads
  pub head_dst : Result Object
  pub read_link : Result Key
  pub remove_old : Option Failure
  pub make_link : Option Failure
  pub copy : DataAnswers
  pub src_now : Result Object
  pub dst_now : Result Object

-- `recordSyncObject`
unfoldable pub record_object : WorkEnv → Key → ℤ → ObjectStatus → Work → Work
record_object env k n status w =
    if env.db && env.keeps status then record w { rows = w.rows ++ ((k, n, status) ∷ []) } else w

-- `recordDeleteResult`
unfoldable pub record_delete_result : WorkEnv → Key → ℤ → Option Failure → Work → Work
unfolding record_object
record_delete_result env k n none w = record_object env k n row_deleted w
record_delete_result env k n (some e) w = record_object env k n row_failed w

-- The counters.
abbrev pub count_failed : Work → Work
count_failed w = record w { deletions = record w.deletions { failed = suc w.deletions.failed } }

abbrev pub count_copied : Work → Work
count_copied w = record w { copied = suc w.copied }

abbrev pub count_checked : Work → Work
count_checked w = record w { checked = suc w.checked }

abbrev pub count_skipped : Work → Work
count_skipped w = record w { run = record w.run { skipped = suc w.run.skipped } }

abbrev pub count_skipped_bytes : Object → Work → Work
count_skipped_bytes o w = record w {
  run = record w.run { skipped = suc w.run.skipped; skipped_bytes = w.run.skipped_bytes +ℤ size o };
}

abbrev pub changed : Change → Work → Work
changed c w = record w { changes = w.changes ++ (c ∷ []) }

-- A gate record, where there is a buffer.
abbrev pub gate_record : WorkEnv → SyncRecord → Work → Work
gate_record env rec w =
    if env.gate_buffer
    then record w { run = record w.run { gate_records = w.run.gate_records ++ (rec ∷ []) } }
    else w

-- `deleteObj` with its error. A call of `Delete` that succeeds is a change.
unfoldable pub delete_step : (ℕ → Option Failure) → Bool → Change → Work → Work × Option Failure
unfolding delete_obj
delete_step delete dry c w =
    let (ds, e) = delete_obj delete dry w.deletions in
    let w' = record w { deletions = ds } in
    elim e [ none ↦ ((if dry then w' else changed c w'), none) | some x ↦ (w', some x) ]

-- The source of an object goes, a directory's at the end of the run.
unfoldable pub drop_source : TaskAnswers → Bool → Key → Work → Work × Option Failure
unfolding delete_step
drop_source ans true k w =
    (record w { run = record w.run { src_delay_del = w.run.src_delay_del ++ (k ∷ []) } }, none)
drop_source ans false k w = delete_step ans.delete false (deleted_src k) w

-- `copyPerms`. An object that is no file, or a destination that is no `FileSystem`, is a panic.
unfoldable pub copy_perms : WorkEnv → Object → Work → Option Work
copy_perms env o w = elim (as_file o) [
  | none ↦ none
  | some f ↦
      if f.is_symlink && env.config.links
      then some w
      else if env.file_system
      then some (changed (mode_set (key o) f.mode) (changed (owner_set (key o) f.owner f.group) w))
      else none
]

-- The uploads: of the checkpoint manager, or of a cluster's worker.
abbrev pub uploads_of : Work → Option Store
uploads_of w = elim w.run.manager [ none ↦ w.worker_uploads | some m ↦ some m.uploads ]

abbrev pub with_uploads : Option Store → Work → Work
with_uploads none w = w
with_uploads (some s) w = elim w.run.manager [
  | none ↦ record w { worker_uploads = some s }
  | some m ↦ record w { run = record w.run { manager = some (record m { uploads = s }) } }
]

-- What ends every task: `trackCheckpointCompletion`, `untrackScannedKey`, `incrHandled(1)`.
unfoldable pub finish_task : WorkEnv → Key → Option Failure → Work → Work
unfolding track_completion incr_handled untrack_scanned
finish_task env k e w =
    let t = track_completion env.config k e (record {
      manager = w.run.manager;
      failed_keys = w.failed_keys;
      completed_keys = w.completed_keys;
    }) in
    record w {
      run = incr_handled (untrack_scanned k (record w.run { manager = t.manager }));
      completed_keys = t.completed_keys;
      failed_keys = t.failed_keys;
    }

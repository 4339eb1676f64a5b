-- ===== src/Produce/Effects.antt =====
-- What `produce` changes: the limit, the counters, the tasks and lists it fills, and the checkpoint.
use my_sync.Common.{ℕ, suc, ◌+◌, ◌-◌, ◌&&◌, List, [], ◌∷◌, ◌++◌, leb, if◌then◌else◌}
use my_sync.Common.Int.{ℤ, ◌+ℤ◌}
use my_sync.Common.Key.{Key}
use my_sync.Common.Map
use my_sync.Common.Map.{Map, key_keys}
use my_sync.Object.{Object, key, size, with_size}
use mathlib.Core.Option
use mathlib.Core.Option.{Option, none, some}
use my_sync.Gate.{SyncRecord, record_skip}
use my_sync.Checkpoint.{Manager, add_pending_key, update_last_listed_key, mark_list_done}
use my_sync.Produce.Compare.{
  Env, Verdict, send, skip, delay_src, assertion, send_marked, skip_recorded,
}

-- `tasks` and `gate_records` are in the order of sending. `db_records` are the skipped objects that
-- the database is told of.
pub record State : Type 0 where
  pub limit : ℤ
  pub total_handled : ℕ
  pub handled_total : ℕ
  pub handled : ℕ
  pub skipped : ℕ
  pub skipped_bytes : ℤ
  pub extra : ℕ
  pub extra_bytes : ℤ
  pub tasks : List Object
  pub src_delay_del : List Key
  pub dst_delay_del : List Key
  pub scanned : Map Key (Unit {0})
  pub scanned_count : ℕ
  pub gate_records : List SyncRecord
  pub db_records : List (Key × ℤ)
  pub manager : Option Manager

-- `incrTotal(1)`
unfoldable pub incr_total : State → State
incr_total st = record st { total_handled = suc st.total_handled }

-- `incrHandled(1)`: the total so far moves into the bar.
unfoldable pub incr_handled : State → State
incr_handled st = record st {
  total_handled = 0;
  handled_total = st.handled_total + st.total_handled;
  handled = suc st.handled;
}

-- Bound of the diagnosis of lost objects.
abbrev pub scanned_keys_limit : ℕ
scanned_keys_limit = 1_000_000

-- `trackScannedKey`
unfoldable pub track_scanned : Key → State → State
track_scanned k st =
    if leb scanned_keys_limit st.scanned_count
    then st
    else if Map.contains st.scanned k
    then st
    else record st { scanned = Map.put st.scanned k tt; scanned_count = suc st.scanned_count }

-- `untrackScannedKey`
unfoldable pub untrack_scanned : Key → State → State
untrack_scanned k st =
    if Map.contains st.scanned k
    then record st { scanned = Map.delete st.scanned k; scanned_count = st.scanned_count - 1 }
    else st

-- A call of the checkpoint manager, if there is one.
abbrev pub with_manager : (Manager → Manager) → State → State
with_manager f st = record st { manager = Option.map f st.manager }

-- `checkpointMgr.UpdateLastListedKey`
unfoldable pub note_last_listed : Env → Object → State → State
note_last_listed env o st = with_manager (λ m. update_last_listed_key m env.prefix o) st

-- `sendTask`
unfoldable pub send_task : Env → Object → State → State
send_task env o st =
    let st' = with_manager (λ m. add_pending_key m env.prefix o) st in
    record st' { tasks = st'.tasks ++ (o ∷ []) }

-- `recordSyncObject` with `StatusSkipped`
unfoldable pub record_skipped : Env → Object → State → State
record_skipped env o st =
    if env.db && env.db_skipped
    then record st { db_records = st.db_records ++ ((key o, size o) ∷ []) }
    else st

-- `skipIt`
unfoldable pub skip_it : Env → Object → State → State
skip_it env o st =
    let st₁ = note_last_listed env o (untrack_scanned (key o) st) in
    let st₂ = record st₁ {
      skipped = suc st₁.skipped;
      skipped_bytes = st₁.skipped_bytes +ℤ size o;
    } in
    record_skipped env o (incr_handled st₂)

-- A source directory whose removal waits for the end of the run.
unfoldable pub delay_source : Env → Object → State → State
delay_source env o st =
    let st' = note_last_listed env o st in
    record st' { src_delay_del = st'.src_delay_del ++ (key o ∷ []) }

-- The verdict carried out; `none` is the panic.
unfoldable pub perform : Env → Object → Verdict → State → Option State
perform env o send st = some (send_task env o st)
perform env o (send_marked mark) st = some (send_task env (with_size o mark) st)
perform env o skip st = some (skip_it env o st)
perform env o (skip_recorded target_size) st = some (
    skip_it env o
      (record st { gate_records = st.gate_records ++ (record_skip o target_size ∷ []) }))
perform env o delay_src st = some (delay_source env o st)
perform env o assertion st = none

-- `MarkListDone`, when `produce` returns without an error.
unfoldable pub list_ended : Env → State → State
list_ended env st = with_manager (λ m. mark_list_done m env.prefix) st

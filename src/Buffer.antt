-- ===== src/Buffer.antt =====
-- `GateRecordBuffer` (pkg/sync/gate.go): records are collected and handed to the database in
-- batches. What runs under the lock is one step. A flush takes the batch under the lock and saves it
-- after that, in two steps, and so does the background loop, which leaves its `select` in a step of
-- its own; other calls may come between them.
pub mod Delivery
use my_sync.Common.{
  ℕ, zero, suc, Bool, true, false, not, ◌&&◌, ◌||◌, Option, none, some, List, [], ◌∷◌, ◌++◌, length,
  leb, if◌then◌else◌, is_empty,
}
use my_sync.Gate.{SyncRecord}

-- Where `periodicFlush` stands; `storing` is before the end of its call of `BatchSaveRecords`.
pub data Loop : Type 0 where
  waiting flushing ended : Loop
  storing : List SyncRecord → Loop

-- `signalled` is whether `flushCh` holds a signal, `done` whether that channel is closed. `saving`
-- are the batches that other callers of `Flush` have taken and that `BatchSaveRecords` has not
-- answered. `handed` are the records that it has saved, in order; `lost` are those of the batches
-- that it refused.
pub record GateBuffer : Type 0 where
  pub batch : List SyncRecord
  pub limit : ℕ
  pub signalled : Bool
  pub done : Bool
  pub closed : Bool
  pub loop : Loop
  pub saving : List (List SyncRecord)
  pub handed : List SyncRecord
  pub lost : List SyncRecord

-- `NewGateRecordBuffer`
unfoldable pub new_buffer : ℕ → GateBuffer
new_buffer limit = record {
  batch = [];
  limit = limit;
  signalled = false;
  done = false;
  closed = false;
  loop = waiting;
  saving = [];
  handed = [];
  lost = [];
}

-- `Add`
unfoldable pub add : GateBuffer → SyncRecord → GateBuffer
add b rec =
    if b.closed
    then b
    else (let batch = b.batch ++ (rec ∷ []) in
        record b { batch = batch; signalled = b.signalled || leb b.limit (length batch) })

-- `Flush` up to the end of its lock.
unfoldable pub take_batch : GateBuffer → GateBuffer
take_batch b =
    if is_empty b.batch then b else record b { batch = []; saving = b.saving ++ (b.batch ∷ []) }

-- The rest of `Flush`: `saved` is whether `BatchSaveRecords` succeeds. A batch that fails is dropped.
unfoldable pub save_batch : GateBuffer → List SyncRecord → Bool → GateBuffer
save_batch b batch saved = record b {
  handed = if saved then b.handed ++ batch else b.handed;
  lost = if saved then b.lost else b.lost ++ batch;
}

-- One of the batches, and the others.
unfoldable pub take_at :
    ℕ → List (List SyncRecord) → Option (List SyncRecord × List (List SyncRecord))
take_at n [] = none
take_at zero (batch ∷ batches) = some (batch, batches)
take_at (suc n) (batch ∷ batches) = elim (take_at n batches) [
  | none ↦ none
  | some (found, rest) ↦ some (found, batch ∷ rest)
]

-- What can happen, by any goroutine. `flushes` and `saves` are the two halves of a `Flush` that
-- is not the loop's, by the place of its batch in `saving`. `ticks`, `receives` and `stops` are the
-- cases of the loop's `select`, `loop_flushes` and `loop_saves` its flush; `close_begins` is `Close` up
-- to the closing of `done`, `close_ends` its flush, after the loop has stopped, which is saved like
-- the others.
pub data Step : Type 0 where
  adds : SyncRecord → Step
  saves : ℕ → Bool → Step
  loop_saves : Bool → Step
  ticks receives stops flushes loop_flushes close_begins close_ends : Step

abbrev pub is_waiting : Loop → Bool
is_waiting waiting = true
is_waiting _ = false

abbrev pub is_flushing : Loop → Bool
is_flushing flushing = true
is_flushing _ = false

abbrev pub is_ended : Loop → Bool
is_ended ended = true
is_ended _ = false

-- The batch that the loop has taken.
unfoldable pub stored : Loop → List SyncRecord
stored (storing batch) = batch
stored _ = []

-- A step that cannot be taken changes nothing.
unfoldable pub step : GateBuffer → Step → GateBuffer
unfolding add take_batch save_batch take_at
step b (adds rec) = add b rec
step b flushes = take_batch b
step b (saves n saved) = elim (take_at n b.saving) [
  | none ↦ b
  | some (batch, rest) ↦ save_batch (record b { saving = rest }) batch saved
]
step b ticks = if is_waiting b.loop then record b { loop = flushing } else b
step b receives =
    if is_waiting b.loop && b.signalled then record b { signalled = false; loop = flushing } else b
step b loop_flushes =
    if is_flushing b.loop
    then record b { batch = []; loop = if is_empty b.batch then waiting else storing b.batch }
    else b
step b (loop_saves saved) = elim b.loop [
  | storing batch ↦ save_batch (record b { loop = waiting }) batch saved
  | waiting ↦ b
  | flushing ↦ b
  | ended ↦ b
]
step b stops = if is_waiting b.loop && b.done then record b { loop = ended } else b
step b close_begins = if b.closed then b else record b { closed = true; done = true }
step b close_ends = if b.closed && is_ended b.loop then take_batch b else b

unfoldable pub run_steps : GateBuffer → List Step → GateBuffer
unfolding step
run_steps b [] = b
run_steps b (s ∷ steps) = run_steps (step b s) steps

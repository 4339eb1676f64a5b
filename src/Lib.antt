-- ===== src/Lib.antt =====
-- A verification library for my-sync, a synchroniser of object storages.
--
-- The producer merges the sorted listings of source and destination into tasks, workers carry the
-- tasks out, and a checkpoint manager remembers which keys are outstanding, so that a run can be
-- resumed. Two gates decide from a database of earlier runs and from the destination whether an
-- object is sent.
--
--   Common       lists, integers, keys and maps over the native numbers
--   Upload       `MultipartUpload`, `Part` (pkg/object/interface.go) and `multipartUploadState`
--   Object       `Object` and `File` (pkg/object), the size marks and wrappers of pkg/sync/sync.go
--   Config       the options (pkg/sync/config.go) and a rule
--   Uploads      `multipartUploadStore` (pkg/sync/checkpoint.go)
--   Checkpoint   `CheckpointManager` and `PrefixState` (pkg/sync/checkpoint.go)
--   Gate         `firstGate`, `secondGate` and the records (pkg/sync/gate.go)
--   Rules        `matchFullPath`, `matchLeveledPath` and their matchers (pkg/sync/sync.go)
--   Filter       `filterKey` and `filter` (pkg/sync/sync.go)
--   Produce      `produce` and `handleExtraObject` (pkg/sync/sync.go)
--   Prefetch     `prefetchGateRecords` (pkg/sync/gate.go)
--   Buffer       `GateRecordBuffer` (pkg/sync/gate.go)
--   Scan         `scanOnly` and `scanOnlyCSV` (pkg/sync/sync.go)
--   Wire         `MarshalObject`, the messages of pkg/sync/cluster.go, the saved `PrefixState`, `Load`
--   Parts        `choosePartSize` and the parts of `doCopyMultiple` (pkg/sync/sync.go)
--   Completion   `try`, `deleteObj` (pkg/sync/sync.go), `trackCheckpointCompletion` (checkpoint.go)
--   Resume       `ValidateConfig` (pkg/sync/checkpoint.go), the gate of a run's config (pkg/sync/sync.go)
--   Contents     `compObjBinary`, `calObjChksum` (pkg/sync/sync.go)
--   Copy         `copyData` and all that it calls (pkg/sync/sync.go)
--   Worker       `worker` with its checks (pkg/sync/sync.go)
--   Listing      `listAll`, `listCommonPrefix` (pkg/sync/sync.go)
--   Reports      what a cluster's worker reports of its uploads (pkg/sync/cluster.go, checkpoint.go)
--   Download     `parallelDownloader` (pkg/sync/download.go)
--   Limit        `globalLimit` (pkg/sync/sync.go)
--   Start        `startSingleProducer` and the inputs of `produce` (pkg/sync/sync.go); Start.Tree is
--                `startProducer` with the restore of prefixes
--   Encrypt      `chunkedEncrypted` (pkg/object/encrypt_chunked.go)
--   Examples     the theorems at concrete inputs
--
-- A key is a list of bytes, compared as Go compares strings. A time is a number of nanoseconds from
-- the zero time, and a size is an integer, since the marks are negative. A channel is the list of
-- what it delivers, in which an object that is `nil` stands for a failed listing. A map is an
-- association list; where the code shares a state by pointer (`multipartUploadState`), the model has
-- a heap and addresses. Operations under a lock are single steps; what is
-- done before and after a lock takes steps of its own.
--
-- The loops over a buffer run on as much fuel as there are bytes to read, and each round reads at
-- least one.
--
-- The matcher of `**` recurses on patterns that get shorter; it runs on fuel of one more than the
-- pattern's length. `startProducer` takes fuel for its nested calls; without a checkpoint the depth
-- and one more is enough. The encryption runs on as much fuel as there are bytes. All other loops are
-- structural. `path.Match` is a parameter of the rules, the cipher one of the encryption, what the
-- storages answer to a copy, a worker or a listing an argument, call by call, the queries of the gate
-- database one of the prefetch, and `strconv` with `encoding/json` one of the messages. What runs in
-- parallel in a download and in the limiter is a list of steps in any order.
--
-- Not modelled are the storage backends, HTTP and ssh of cluster mode, the database drivers,
-- logging, progress bars and metrics, which are I/O; the metadata copied beside an object and the
-- times of files; the counters of copied and checked bytes and the waiting for the limiter and for
-- free slots outside a download; several producers at once, which run one after another here; and
-- 64-bit overflow of sizes and counters.
pub mod Common
pub mod Upload
pub mod Object
pub mod Config
pub mod Uploads
pub mod Checkpoint
pub mod Gate
pub mod Rules
pub mod Filter
pub mod Produce
pub mod Prefetch
pub mod Buffer
pub mod Scan
pub mod Wire
pub mod Parts
pub mod Completion
pub mod Resume
pub mod Contents
pub mod Copy
pub mod Worker
pub mod Listing
pub mod Reports
pub mod Download
pub mod Limit
pub mod Start
pub mod Encrypt
pub mod Examples

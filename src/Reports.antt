-- ===== src/Reports.antt =====
-- What a worker of a cluster reports of its uploads (pkg/sync/checkpoint.go, `workerMultipartUploads`,
-- and pkg/sync/cluster.go, `getMultipartUploads`, `clearSentMultipartParts`). The parts that were
-- marked since the last report are dirty.
pub mod Sent
use my_sync.Common.{
  ℕ, Bool, true, false, not, ◌&&◌, Option, none, some, List, [], ◌∷◌, if◌then◌else◌, is_empty,
}
use my_sync.Common.Key.{Key}
use my_sync.Common.Map
use my_sync.Common.Map.{Map, key_keys, number_keys}
use my_sync.Upload.{Part, UploadState}
use my_sync.Uploads.{Store, is_valid, saved_state, mark_part, finish, new_store}

-- `workerMultipartUploads`
pub record WorkerUploads : Type 0 where
  pub store : Store
  pub dirty : Map Key (Map ℕ (Unit {0}))

-- `newWorkerMultipartUploads`
unfoldable pub new_worker_uploads : WorkerUploads
new_worker_uploads = record { store = new_store; dirty = [] }

abbrev or_none : Option (Map ℕ (Unit {0})) → Map ℕ (Unit {0})
or_none none = []
or_none (some m) = m

abbrev pub mark_dirty : Key → ℕ → Map Key (Map ℕ (Unit {0})) → Map Key (Map ℕ (Unit {0}))
mark_dirty k n dirty = Map.put dirty k (Map.put (or_none (Map.get dirty k)) n tt)

-- `MarkMultipartPart` of a worker, through the pointer.
unfoldable pub mark_worker_part : WorkerUploads → Key → ℕ → Option Part → ℕ → Bool → WorkerUploads
mark_worker_part w k ptr none chksum with_sum = w
mark_worker_part w k ptr (some part) chksum with_sum = elim (Map.get w.store.heap ptr) [
  | none ↦ w
  | some state ↦
      if is_valid state
      then record {
        store = mark_part w.store ptr (some part) chksum with_sum;
        dirty = mark_dirty k part.num w.dirty;
      }
      else w
]

-- `FinishMultipartUpload` of a worker.
unfoldable pub finish_worker_upload : WorkerUploads → Key → WorkerUploads
finish_worker_upload w k = record { store = finish w.store k; dirty = Map.delete w.dirty k }

-- The entries whose numbers the other map has.
unfoldable pub pick {ℓ κ} : {A : Type ℓ} {B : Type κ} → Map ℕ A → Map ℕ B → Map ℕ A
pick parts [] = []
pick parts ((n, u) ∷ nums) =
    let rest = pick parts nums in elim (Map.get parts n) [ none ↦ rest | some p ↦ (n, p) ∷ rest ]

abbrev pub picked : UploadState → Map ℕ (Unit {0}) → UploadState
picked state nums =
    let parts = pick state.parts nums in
    record state { parts = parts; checksums = pick state.checksums parts }

abbrev pub unless_empty : UploadState → Option UploadState
unless_empty state = if is_empty state.parts then none else some state

-- What is reported of one key: nothing without a valid state, or without a part.
unfoldable pub report_of : WorkerUploads → Key → Option UploadState
unfolding pick saved_state is_valid
report_of w k = elim (Map.get w.dirty k) [
  | none ↦ none
  | some nums ↦ elim (saved_state w.store k) [
    | none ↦ none
    | some (ptr, state) ↦ if is_valid state then unless_empty (picked state nums) else none
  ]
]

-- The loop over the keys that have dirty parts.
unfoldable pub report_keys : WorkerUploads → List Key → Map Key UploadState
unfolding report_of
report_keys w [] = []
report_keys w (k ∷ ks) =
    let rest = report_keys w ks in
    elim (report_of w k) [ none ↦ rest | some state ↦ (k, state) ∷ rest ]

-- `getMultipartUploads`
unfoldable pub get_uploads : WorkerUploads → Map Key UploadState
unfolding report_keys
get_uploads w = report_keys w (Map.keys w.dirty)

-- The parts that were sent are dirty no longer.
unfoldable pub clear_parts {ℓ} : {A : Type ℓ} → Map ℕ (Unit {0}) → Map ℕ A → Map ℕ (Unit {0})
clear_parts nums [] = nums
clear_parts nums ((n, p) ∷ sent) = Map.delete (clear_parts nums sent) n

abbrev pub put_or_delete :
    Key → Map ℕ (Unit {0}) → Map Key (Map ℕ (Unit {0})) → Map Key (Map ℕ (Unit {0}))
put_or_delete k nums dirty = if is_empty nums then Map.delete dirty k else Map.put dirty k nums

unfoldable pub clear_key :
    Map Key (Map ℕ (Unit {0})) → Key → UploadState → Map Key (Map ℕ (Unit {0}))
unfolding clear_parts
clear_key dirty k sent = elim (Map.get dirty k) [
  | none ↦ dirty
  | some nums ↦ put_or_delete k (clear_parts nums sent.parts) dirty
]

-- `clearSentMultipartParts`
unfoldable pub clear_sent :
    Map Key (Map ℕ (Unit {0})) → Map Key UploadState → Map Key (Map ℕ (Unit {0}))
unfolding clear_key
clear_sent dirty [] = dirty
clear_sent dirty ((k, sent) ∷ uploads) = clear_key (clear_sent dirty uploads) k sent

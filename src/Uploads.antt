-- ===== src/Uploads.antt =====
-- `multipartUploadStore` of pkg/sync/checkpoint.go.
-- A `*multipartUploadState` is an address of the store's heap, because a part that is marked
-- through a pointer shows wherever that pointer is kept.
pub mod Laws
use my_sync.Common.{
  ℕ, suc, Bool, true, false, not, ◌&&◌, ◌||◌, Option, none, some, List, [], ◌∷◌, ltb, ◌==◌,
  if◌then◌else◌, is_empty,
}
use my_sync.Common.Int.{ℤ, eqb_ℤ}
use my_sync.Common.Key.{Key, key_eq}
use my_sync.Common.Map
use my_sync.Common.Map.{Map, key_keys, number_keys, ◌=?◌}
use my_sync.Upload.{MultipartUpload, Part, UploadState}

pub record Store : Type 0 where
  pub heap : Map ℕ UploadState
  pub uploads : Map Key ℕ
  pub fresh : ℕ

-- `newMultipartUploadStore(nil)`
unfoldable pub new_store : Store
new_store = record { heap = []; uploads = []; fresh = 0 }

-- `(*multipartUploadState).isValid`, of what the pointer points to.
unfoldable pub is_valid : UploadState → Bool
is_valid s =
    not (is_empty s.upload.upload_id) && (ltb 0 s.upload.min_part_size && ltb 0 s.upload.max_count)

-- `(*multipartUploadState).isMatched`
unfoldable pub is_matched : UploadState → ℤ → ℕ → Bool
is_matched s size mtime = is_valid s && (eqb_ℤ s.size size && s.mtime == mtime)

-- What `s.uploads[key]` points to, with its address.
unfoldable pub saved_state : Store → Key → Option (ℕ × UploadState)
saved_state s key = elim (Map.get s.uploads key) [
  | none ↦ none
  | some ptr ↦ elim (Map.get s.heap ptr) [ none ↦ none | some state ↦ some (ptr, state) ]
]

-- `GetMultipartCheckpoint`: the pointer, and what it points to.
unfoldable pub get_multipart_checkpoint : Store → Key → ℤ → ℕ → Option (ℕ × UploadState)
get_multipart_checkpoint s key size mtime = elim (saved_state s key) [
  | none ↦ none
  | some (ptr, state) ↦ if is_matched state size mtime then some (ptr, state) else none
]

-- `FindMultipartUpload`
unfoldable pub find_multipart_upload : Store → Key → ℤ → ℕ → Option MultipartUpload
find_multipart_upload s key size mtime = elim (saved_state s key) [
  | none ↦ none
  | some (ptr, state) ↦ if is_matched state size mtime then some state.upload else none
]

-- Part by part, the newer state wins.
unfoldable pub merge_parts : UploadState → UploadState → UploadState
merge_parts saved state = record saved {
  parts = Map.copy_into saved.parts state.parts;
  checksums = Map.copy_into saved.checksums state.checksums;
}

-- The pointer `ptr` is put in, or its parts are merged into the state that is there.
put_pointer : Store → Key → ℕ → UploadState → Option (ℕ × UploadState) → Store
put_pointer s key ptr state none = record s { uploads = Map.put s.uploads key ptr }
put_pointer s key ptr state (some (old, saved)) =
    if key_eq saved.upload.upload_id state.upload.upload_id
    then record s { heap = Map.put s.heap old (merge_parts saved state) }
    else record s { uploads = Map.put s.uploads key ptr }

-- A new state on the heap.
unfoldable pub alloc : Store → UploadState → ℕ × Store
alloc s state = (s.fresh, record s { heap = Map.put s.heap s.fresh state; fresh = suc s.fresh })

-- `PutMultipartCheckpoint`. Its callers pass a state that they have just decoded.
unfoldable pub put_multipart_checkpoint : Store → Key → UploadState → Store
unfolding put_pointer alloc
put_multipart_checkpoint s key state =
    if is_valid state
    then (let (ptr, s') = alloc s state in put_pointer s' key ptr state (saved_state s' key))
    else s

-- The state that `EnsureMultipartUploadState` makes.
unfoldable pub fresh_state : ℤ → ℕ → ℕ → MultipartUpload → UploadState
fresh_state size mtime part_size up = record {
  upload = record up { min_part_size = part_size };
  size = size;
  mtime = mtime;
  parts = [];
  checksums = [];
}

make_state : Store → Key → UploadState → ℕ × Store
unfolding alloc
make_state s key state =
    let (ptr, s') = alloc s state in (ptr, record s' { uploads = Map.put s'.uploads key ptr })

-- The saved state is kept if it is of the same object and upload.
ensure_from : Store → Key → ℤ → ℕ → ℕ → MultipartUpload → Option (ℕ × UploadState) → ℕ × Store
ensure_from s key size mtime part_size up none =
    make_state s key (fresh_state size mtime part_size up)
ensure_from s key size mtime part_size up (some (ptr, state)) =
    if is_matched state size mtime && key_eq state.upload.upload_id up.upload_id
    then (ptr, s)
    else make_state s key (fresh_state size mtime part_size up)

-- `EnsureMultipartUploadState`
unfoldable pub ensure_state : Store → Key → ℤ → ℕ → ℕ → MultipartUpload → ℕ × Store
unfolding ensure_from make_state
ensure_state s key size mtime part_size up =
    ensure_from s key size mtime part_size up (saved_state s key)

-- The state with a part, and with its checksum where one was computed.
unfoldable pub add_part : UploadState → Part → ℕ → Bool → UploadState
add_part state part chksum with_sum = record state {
  parts = Map.put state.parts part.num part;
  checksums = if with_sum then Map.put state.checksums part.num chksum else state.checksums;
}

-- `MarkMultipartPart`, through the pointer.
unfoldable pub mark_part : Store → ℕ → Option Part → ℕ → Bool → Store
mark_part s ptr none chksum with_sum = s
mark_part s ptr (some part) chksum with_sum = elim (Map.get s.heap ptr) [
  | none ↦ s
  | some state ↦
      if is_valid state
      then record s { heap = Map.put s.heap ptr (add_part state part chksum with_sum) }
      else s
]

-- `GetMultipartPart` of a state.
unfoldable pub part_of : UploadState → ℕ → Bool → Option (Part × ℕ)
part_of state num with_sum =
    if is_valid state
    then elim (Map.get state.parts num) [
      | none ↦ none
      | some part ↦
          if with_sum
          then elim (Map.get state.checksums num) [
            | none ↦ none
            | some chksum ↦ some (part, chksum)
          ]
          else some (part, 0)
    ]
    else none

-- `GetMultipartPart`, through the pointer.
unfoldable pub get_part : Store → ℕ → ℕ → Bool → Option (Part × ℕ)
get_part s ptr num with_sum = elim (Map.get s.heap ptr) [
  | none ↦ none
  | some state ↦ part_of state num with_sum
]

-- `FinishMultipartUpload`
unfoldable pub finish : Store → Key → Store
finish s key = record s { uploads = Map.delete s.uploads key }

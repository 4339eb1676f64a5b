-- ===== src/Uploads/Laws.antt =====
-- What `multipartUploadStore` finds again: the upload that was ensured, the part that was marked,
-- and both sides of a merge.
use my_sync.Common.{
  ℕ, ◌<◌, ◌≡◌, refl, Bool, true, ◌&&◌, Option, none, some, arith, if◌then◌else◌, Bool-cases,
  Option-cases, inl, inr,
}
use my_sync.Common.Int.{ℤ}
use my_sync.Common.Key.{Key, key_eq}
use my_sync.Common.Map
use my_sync.Common.Map.{Map, key_keys, number_keys, ◌=?◌}
use my_sync.Upload.{MultipartUpload, Part, UploadState}
use my_sync.Uploads.{
  Store, is_valid, is_matched, saved_state, find_multipart_upload, merge_parts, put_pointer, alloc,
  put_multipart_checkpoint, fresh_state, make_state, ensure_state, ensure_from, finish, add_part,
  mark_part, part_of, get_part,
}

-- A part that is marked through a pointer is read back through it, with its checksum where one
-- was computed; every other part reads as before.
pub get_part-mark_part :
    (s : Store) (ptr : ℕ) (state : UploadState) (part : Part) (chksum num : ℕ) (with_sum : Bool)
    → Map.get s.heap ptr ≡ some state
    → is_valid state ≡ true
    → get_part (mark_part s ptr (some part) chksum with_sum) ptr num with_sum ≡ (
        if part.num =? num
        then some (part, if with_sum then chksum else 0)
        else get_part s ptr num with_sum)
unfolding get_part mark_part part_of add_part is_valid
get_part-mark_part s ptr state part chksum num with_sum h v = ground (
  arith,
  Map.get-put s.heap ptr ptr (add_part state part chksum with_sum),
  Map.get-put state.parts part.num num part,
  Map.get-put state.checksums part.num num chksum,
)

-- A new state is found under its key.
make_state-saved :
    (s : Store) (k : Key) (state : UploadState)
    → saved_state (make_state s k state).1 k ≡ some (s.fresh, state)
unfolding make_state saved_state
make_state-saved s k state =
    ground (arith, Map.get-put s.uploads k k s.fresh, Map.get-put s.heap s.fresh s.fresh state)

make_state-found :
    (s : Store) (k : Key) (sz : ℤ) (t part_size : ℕ) (up : MultipartUpload)
    → is_valid (fresh_state sz t part_size up) ≡ true
    → find_multipart_upload (make_state s k (fresh_state sz t part_size up)).1 k sz t
      ≡ some (record up { min_part_size = part_size })
unfolding find_multipart_upload fresh_state is_valid is_matched
make_state-found s k sz t part_size up v =
    rw (make_state-saved s k (fresh_state sz t part_size up), find_multipart_upload) (ground arith)

-- The object `k`, of this size and mtime, is found in `r.1` with the upload's id, and the pointer
-- `r.0` is its state.
abbrev pub Ensured : ℕ × Store → Key → ℤ → ℕ → MultipartUpload → Type 0
Ensured r k sz t up =
    (found : MultipartUpload) × (find_multipart_upload r.1 k sz t ≡ some found)
    × (found.upload_id ≡ up.upload_id)
    × (state : UploadState) × (saved_state r.1 k ≡ some (r.0, state))

make_state-Ensured :
    (s : Store) (k : Key) (sz : ℤ) (t part_size : ℕ) (up : MultipartUpload)
    → is_valid (fresh_state sz t part_size up) ≡ true
    → Ensured (make_state s k (fresh_state sz t part_size up)) k sz t up
unfolding make_state
make_state-Ensured s k sz t part_size up v = (
  record up { min_part_size = part_size },
  make_state-found s k sz t part_size up v,
  refl,
  fresh_state sz t part_size up,
  make_state-saved s k (fresh_state sz t part_size up),
)

ensure_from-Ensured :
    (s : Store) (k : Key) (sz : ℤ) (t part_size : ℕ) (up : MultipartUpload)
    (saved : Option (ℕ × UploadState))
    → saved_state s k ≡ saved
    → is_valid (fresh_state sz t part_size up) ≡ true
    → Ensured (ensure_from s k sz t part_size up saved) k sz t up
unfolding ensure_from find_multipart_upload
ensure_from-Ensured s k sz t part_size up none e v = make_state-Ensured s k sz t part_size up v
ensure_from-Ensured s k sz t part_size up (some (ptr, state)) e v =
    elim (Bool-cases (is_matched state sz t && key_eq state.upload.upload_id up.upload_id)) [
      | inl same ↦
          rw same
            (state.upload, rw (find_multipart_upload, e) (ground arith), ground arith, state, e)
      | inr other ↦ rw other (make_state-Ensured s k sz t part_size up v)
    ]

-- After `EnsureMultipartUploadState` the same object, of the same size and mtime, finds an upload
-- of that id, provided the new state would be valid (it has an id, a part size and a part count).
-- The returned pointer is the state that is saved for the object.
pub find-ensure_state :
    (s : Store) (k : Key) (sz : ℤ) (t part_size : ℕ) (up : MultipartUpload)
    → is_valid (fresh_state sz t part_size up) ≡ true
    → Ensured (ensure_state s k sz t part_size up) k sz t up
unfolding ensure_state
find-ensure_state s k sz t part_size up v =
    ensure_from-Ensured s k sz t part_size up (saved_state s k) refl v

-- What is saved for a key and read part by part.
abbrev pub saved_part : Store → Key → ℕ → Option Part
saved_part s k num = elim (saved_state s k) [
  | none ↦ none
  | some (ptr, state) ↦ Map.get state.parts num
]

-- No address in use is the next fresh one.
abbrev pub IsSound : Store → Type 0
IsSound s = (k : Key) (ptr : ℕ) → Map.get s.uploads k ≡ some ptr → ptr < s.fresh

saved_state-alloc :
    (s : Store) (k : Key) (state : UploadState)
    → IsSound s
    → saved_state (alloc s state).1 k ≡ saved_state s k
unfolding saved_state alloc
saved_state-alloc s k state sound = elim (Option-cases (Map.get s.uploads k)) [
  | inl e ↦ ground (arith, e)
  | inr (ptr, e) ↦ ground (arith, e, sound k ptr e, Map.get-put s.heap s.fresh ptr state)
]

put_pointer-part :
    (s : Store) (k : Key) (ptr num : ℕ) (state : UploadState) (saved : Option (ℕ × UploadState))
    → saved_state s k ≡ saved
    → Map.get s.heap ptr ≡ some state
    → saved_part (put_pointer s k ptr state saved) k num ≡ elim (Map.get state.parts num) [
      | some part ↦ some part
      | none ↦ elim saved [
        | none ↦ none
        | some (old, before) ↦
            if key_eq before.upload.upload_id state.upload.upload_id
            then Map.get before.parts num
            else none
      ]
    ]
unfolding put_pointer saved_state merge_parts
put_pointer-part s k ptr num state none e h = ground (arith, Map.get-put s.uploads k k ptr)
put_pointer-part s k ptr num state (some (old, before)) e h = ground (
  arith,
  Map.get-put s.uploads k k ptr,
  Map.get-put s.heap old old (merge_parts before state),
  Map.get-copy_into before.parts state.parts num,
)

-- `PutMultipartCheckpoint` of a valid state, in a store whose pointers are allocated: a part of
-- the new state is saved, and a part that the new state lacks stays saved if it belongs to the
-- same upload. So no part of an upload is lost; another upload replaces the parts.
pub saved_part-put_multipart_checkpoint :
    (s : Store) (k : Key) (num : ℕ) (state : UploadState)
    → IsSound s
    → is_valid state ≡ true
    → saved_part (put_multipart_checkpoint s k state) k num ≡ elim (Map.get state.parts num) [
      | some part ↦ some part
      | none ↦ elim (saved_state s k) [
        | none ↦ none
        | some (old, before) ↦
            if key_eq before.upload.upload_id state.upload.upload_id
            then Map.get before.parts num
            else none
      ]
    ]
unfolding put_multipart_checkpoint alloc
saved_part-put_multipart_checkpoint s k num state sound v =
    rw (v, saved_state-alloc s k state sound)
      (put_pointer-part (alloc s state).1 k s.fresh num state (saved_state s k)
        (saved_state-alloc s k state sound) allocated)
  where
    allocated : Map.get (alloc s state).1.heap s.fresh ≡ some state
    allocated = ground (arith, Map.get-put s.heap s.fresh s.fresh state)

make_state-no_part :
    (s : Store) (k : Key) (sz : ℤ) (t part_size num : ℕ) (up : MultipartUpload) (with_sum : Bool)
    → let (ptr, s') = make_state s k (fresh_state sz t part_size up) in
      get_part s' ptr num with_sum ≡ none
unfolding make_state alloc get_part part_of fresh_state Map.get
make_state-no_part s k sz t part_size num up with_sum =
    ground (arith, Map.get-put s.heap s.fresh s.fresh (fresh_state sz t part_size up))

-- A state that is made because no upload was found has no parts.
pub ensure_state-no_part :
    (s : Store) (k : Key) (sz : ℤ) (t part_size num : ℕ) (up : MultipartUpload) (with_sum : Bool)
    → find_multipart_upload s k sz t ≡ none
    → let (ptr, s') = ensure_state s k sz t part_size up in get_part s' ptr num with_sum ≡ none
unfolding find_multipart_upload ensure_state ensure_from
ensure_state-no_part s k sz t part_size num up with_sum e = elim (Option-cases (saved_state s k)) [
  | inl empty ↦ rw (ensure_state, empty) (make_state-no_part s k sz t part_size num up with_sum)
  | inr ((ptr, state), there) ↦ elim (Bool-cases (is_matched state sz t)) [
    | inl same ↦ cc (rw (find_multipart_upload, there, same) at e)
    | inr other ↦
        rw (ensure_state, there, other) (make_state-no_part s k sz t part_size num up with_sum)
  ]
]

-- What is finished is not found.
pub find-finish :
    (s : Store) (k : Key) (sz : ℤ) (t : ℕ) → find_multipart_upload (finish s k) k sz t ≡ none
unfolding find_multipart_upload saved_state finish
find-finish s k sz t = ground (arith, Map.get-delete s.uploads k k)

-- ===== src/Copy/Data.antt =====
-- `copyData`, `doCopySingle` and `doCopySingle0` (pkg/sync/sync.go): one object is copied as a whole
-- or in parts, by its size and by what the storages can do. Metadata is copied beside it and does
-- not steer the copy but for the way an upload is created.
pub mod Whole
pub mod Verified
use my_sync.Common.{
  ℕ, zero, ◌*◌, ◌^◌, Bool, true, false, not, ◌&&◌, ◌||◌, Option, none, some, List, [], is_empty,
  ltb, leb, ◌==◌, if◌then◌else◌,
}
use my_sync.Common.Int.{pos}
use my_sync.Common.Key.{Key}
use my_sync.Completion.{Failure, err_skipped, err_other}
use my_sync.Upload.{MultipartUpload}
use my_sync.Uploads.{Store, find_multipart_upload, finish}
use my_sync.Contents.{Bytes, Crc, max_block}
use my_sync.Copy.{Result, ok, err, retry, read_sum}
use my_sync.Copy.Multiple.{Job, MultipleAnswers, Outcome, copy_multiple, forget}

-- What `inMap`, `IsFileSystem` and the path of the destination say of the two storages.
pub record Endpoints : Type 0 where
  pub dst_in_mem : Bool
  pub dst_stream_write : Bool
  pub dst_file_system : Bool
  pub dst_whole_bucket : Bool
  pub src_fast_read : Bool
  pub src_file_system : Bool

-- What one attempt at a whole object meets: whether a temporary file can be made, what the parallel
-- download delivers, whether the source's `Head` says that the object does not exist, the `Get` that
-- checks permissions, the `Get` of the object, and `Put` of the bytes. `Put` passes on the error of
-- the reader that it is given.
pub record SingleAnswers : Type 0 where
  pub temp_file : Bool
  pub download : Result Bytes
  pub source_gone : Bool
  pub opened : Option Failure
  pub body : Result Bytes
  pub put : Bytes → Option Failure

-- The bytes are put, and their checksum is taken while they are read.
unfoldable pub put_bytes : Crc → Bool → SingleAnswers → Result Bytes → Result ℕ
put_bytes crc cal ans (err e) = err e
put_bytes crc cal ans (ok bytes) = elim (ans.put bytes) [
  | some e ↦ err e
  | none ↦ ok (read_sum crc cal bytes)
]

-- The body of an object with no bytes.
abbrev pub empty_body : Endpoints → SingleAnswers → Result Bytes
empty_body ends ans =
    if ends.src_file_system then elim ans.opened [ none ↦ ok [] | some e ↦ err e ] else ok []

abbrev pub full_body : SingleAnswers → Result Bytes
full_body ans = elim ans.body [
  | ok bytes ↦ ok bytes
  | err e ↦ if ans.source_gone then err err_skipped else err e
]

-- `doCopySingle0`
unfoldable pub copy_single_plain : Crc → Endpoints → Job → SingleAnswers → Result ℕ
unfolding put_bytes
copy_single_plain crc ends job ans =
    if job.size == 0
    then (if is_empty job.key && (not ends.dst_file_system && ends.dst_whole_bucket)
        then ok 0
        else put_bytes crc job.cal ans (empty_body ends ans))
    else put_bytes crc job.cal ans (full_body ans)

-- `doCopySingle`
unfoldable pub copy_single : Crc → Endpoints → Job → SingleAnswers → Result ℕ
unfolding copy_single_plain
copy_single crc ends job ans =
    if ltb max_block job.size && (not ends.dst_in_mem && not ends.src_fast_read)
    then (if ends.dst_stream_write || ans.temp_file
        then put_bytes crc job.cal ans ans.download
        else copy_single_plain crc ends job ans)
    else copy_single_plain crc ends job ans

-- What the creation of an upload comes to: `utils.ErrNotSUP` and the other errors differ.
pub data Created : Type 0 where
  made : MultipartUpload → Created
  not_supported refused : Created

-- What the storages answer to the copy of one object. `meta_upload` is what the creation with metadata makes,
-- where it is tried and succeeds; `resumed` and `fresh` are for the parts of an upload of an earlier run, and of a new one.
pub record DataAnswers : Type 0 where
  pub single : ℕ → SingleAnswers
  pub meta_upload : Option MultipartUpload
  pub create : Created
  pub create_again : ℕ → Result MultipartUpload
  pub resumed : MultipleAnswers
  pub fresh : MultipleAnswers
  pub source_gone : Bool

-- A result and the store of uploads.
pub record DataOutcome : Type 0 where
  pub result : Result ℕ
  pub store : Option Store

abbrev in_parts : Outcome → DataOutcome
in_parts out = record { result = out.result; store = out.store }

abbrev pub create_upload : DataAnswers → Created
create_upload ans = elim ans.meta_upload [ none ↦ ans.create | some up ↦ made up ]

-- A new upload.
unfoldable pub copy_fresh : Crc → Endpoints → Job → Option Store → DataAnswers → DataOutcome
copy_fresh crc ends job store ans = elim (create_upload ans) [
  | made up ↦ in_parts (copy_multiple crc job up store ans.fresh)
  | not_supported ↦ record {
    result = retry 3 (λ i. copy_single crc ends job (ans.single i));
    store = store;
  }
  | refused ↦ elim (retry 2 ans.create_again) [
    | err e ↦ record { result = err e; store = store }
    | ok up ↦ in_parts (copy_multiple crc job up store ans.fresh)
  ]
]

-- An upload of an earlier run that fails is aborted, and the object is copied anew.
unfoldable pub copy_resumed :
    Crc → Endpoints → Job → Store → MultipartUpload → DataAnswers → DataOutcome
unfolding copy_fresh
copy_resumed crc ends job s up ans =
    let out = copy_multiple crc job up (some s) ans.resumed in
    elim out.result [
      | ok sum ↦ in_parts out
      | err e ↦ copy_fresh crc ends job (forget job.key out.store) ans
    ]

-- A large object: an upload of an earlier run is looked for first.
unfoldable pub copy_large : Crc → Endpoints → Job → Option Store → DataAnswers → DataOutcome
unfolding copy_resumed
copy_large crc ends job none ans = copy_fresh crc ends job none ans
copy_large crc ends job (some s) ans =
    elim (find_multipart_upload s job.key (pos job.size) job.mtime) [
      | none ↦ copy_fresh crc ends job (some s) ans
      | some up ↦ copy_resumed crc ends job s up ans
    ]

abbrev pub checkpoint_threshold : ℕ
checkpoint_threshold = 4 * 2 ^ 30

-- An error is `ErrSkipped` once the source is gone.
abbrev pub unless_gone : Bool → Result ℕ → Result ℕ
unless_gone gone (ok sum) = ok sum
unless_gone gone (err e) = if gone then err err_skipped else err e

-- Uploads of smaller objects are not kept for a later run.
abbrev pub copy_any : Crc → Endpoints → Job → Option Store → DataAnswers → DataOutcome
copy_any crc ends job store ans =
    if ltb job.size max_block
    then record { result = retry 3 (λ i. copy_single crc ends job (ans.single i)); store = store }
    else if leb job.size checkpoint_threshold
    then record { result = (copy_large crc ends job none ans).result; store = store }
    else copy_large crc ends job store ans

-- `copyData`
unfoldable pub copy_data : Crc → Endpoints → Job → Option Store → DataAnswers → DataOutcome
unfolding copy_large
copy_data crc ends job store ans =
    let out = copy_any crc ends job store ans in
    record { result = unless_gone ans.source_gone out.result; store = out.store }

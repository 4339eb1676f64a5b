-- ===== src/Upload.antt =====
-- The multipart types of pkg/object/interface.go and pkg/sync/checkpoint.go.
-- A time is a number of nanoseconds since the zero `time.Time` (January 1 of the year 1, UTC).
use my_sync.Common.{ℕ}
use my_sync.Common.Int.{ℤ}
use my_sync.Common.Key.{Key}
use my_sync.Common.Map.{Map}

-- `object.MultipartUpload`
pub record MultipartUpload : Type 0 where
  pub min_part_size : ℕ
  pub max_count : ℕ
  pub upload_id : Key

-- `object.Part`
pub record Part : Type 0 where
  pub num : ℕ
  pub size : ℕ
  pub etag : Key

-- `multipartUploadState`. A nil map reads like an empty one, and is written like one.
pub record UploadState : Type 0 where
  pub upload : MultipartUpload
  pub size : ℤ
  pub mtime : ℕ
  pub parts : Map ℕ Part
  pub checksums : Map ℕ ℕ

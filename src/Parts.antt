-- ===== src/Parts.antt =====
-- How an object is cut into parts: `choosePartSize`, and the ranges that `doCopyMultiple` and
-- `doCopyRange` copy (pkg/sync/sync.go). Sizes are not negative here; an empty object has one empty
-- part, as `(0-1)/partSize` is 0 in Go and here.
pub mod Ranges
pub mod Count
use my_sync.Common.{
  ℕ, zero, suc, ◌+◌, ◌-◌, ◌*◌, ◌/◌, ◌^◌, Bool, true, false, Option, none, some, List, [], ◌∷◌, ltb,
  ◌==◌, if◌then◌else◌,
}
use my_sync.Upload.{MultipartUpload}

abbrev pub mebibyte : ℕ
mebibyte = 1048576

abbrev pub default_part_size : ℕ
default_part_size = 5 * mebibyte

-- The part size that the storage asks for.
abbrev pub least_part_size : MultipartUpload → ℕ
least_part_size up = if up.min_part_size == 0 then default_part_size else up.min_part_size

-- `((partSize-1)>>20 + 1) << 20`
abbrev pub align_mebibyte : ℕ → ℕ
align_mebibyte n = ((n - 1) / mebibyte + 1) * mebibyte

-- `choosePartSize`
unfoldable pub choose_part_size : MultipartUpload → ℕ → ℕ
choose_part_size up size =
    if ltb (least_part_size up * up.max_count) size
    then align_mebibyte (size / up.max_count)
    else least_part_size up

unfoldable pub part_count : ℕ → ℕ → ℕ
part_count part_size size = (size - 1) / part_size + 1

-- What one part copies. The storage counts parts from 1.
pub record Range : Type 0 where
  pub num : ℕ
  pub off : ℕ
  pub len : ℕ

-- The last part has what is left.
abbrev pub part_len : ℕ → ℕ → ℕ → ℕ → ℕ
part_len part_size size i zero = size - i * part_size
part_len part_size size i (suc more) = part_size

-- The loop over the parts, with `more` of them after the part `i`.
unfoldable pub ranges_from : ℕ → ℕ → ℕ → ℕ → List Range
ranges_from part_size size i zero = []
ranges_from part_size size i (suc more) =
    record { num = i; off = i * part_size; len = part_len part_size size i more }
    ∷ ranges_from part_size size (suc i) more

unfoldable pub part_ranges : ℕ → ℕ → List Range
unfolding ranges_from part_count
part_ranges part_size size = ranges_from part_size size 0 (part_count part_size size)

-- The plan of `doCopyMultiple`, unless the object is too large for the storage.
unfoldable pub copy_plan : ℕ → MultipartUpload → ℕ → Option (List Range)
unfolding part_ranges choose_part_size
copy_plan max_part_size up size =
    if ltb (max_part_size * up.max_count) size
    then none
    else some (part_ranges (choose_part_size up size) size)

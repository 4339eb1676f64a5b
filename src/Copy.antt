-- ===== src/Copy.antt =====
-- Copying one part of a large object (pkg/sync/sync.go): `doUploadPart` and `doCopyRange`. What the
-- storages answer is given, call by call. The slots for concurrent copies and the limiter only
-- delay a call, a part that is aborted is one that fails, and the calls that clean up a temporary
-- object, whose answers nothing looks at, are left out.
pub mod Multiple
pub mod Sums
pub mod Parts
pub mod Data
pub mod Whole
use my_sync.Common.{
  ℕ, ◌-◌, ◌*◌, ◌+◌, ◌^◌, Bool, true, false, not, ◌||◌, Option, none, some, List, [], ◌∷◌, map, leb,
  ◌==◌, if◌then◌else◌,
}
use my_sync.Common.Int.{pos}
use my_sync.Completion.{Failure, err_other, try_calls}
use my_sync.Upload.{MultipartUpload, Part}
use my_sync.Parts.{Range, part_ranges, choose_part_size}
use my_sync.Contents.{Bytes, Reader, read_full, Crc, part_chksum}

-- What a call returns: a value or an error.
pub data Result {ℓ} (A : Type ℓ) : Type ℓ where
  ok : A → Result A
  err : Failure → Result A

abbrev pub error_of {ℓ} : {A : Type ℓ} → Result A → Option Failure
error_of (ok a) = none
error_of (err e) = some e

-- `try(n, ...)` of a call that sets a variable: the variable is that of the last call.
unfoldable pub retry {ℓ} : {A : Type ℓ} → ℕ → (ℕ → Result A) → Result A
unfolding try_calls
retry n f = let (calls, e) = try_calls n (λ i. error_of (f i)) in f (calls - 1)

-- An error is passed on with its message alone, which `fmt.Errorf` without `%w` makes.
abbrev pub wrapped {ℓ} : {A : Type ℓ} → Result A → Result A
wrapped (ok a) = ok a
wrapped (err e) = err err_other

-- A part and the checksum of its bytes.
pub record Copied : Type 0 where
  pub part : Part
  pub sum : ℕ

-- What the two storages answer to one attempt at a part: `Get`, and `UploadPart` of the bytes.
pub record Attempt : Type 0 where
  pub body : Result Bytes
  pub upload : Bytes → Result Part

-- What `chksumReader` has after the bytes are read.
abbrev pub read_sum : Crc → Bool → Bytes → ℕ
read_sum crc cal block = if cal then crc.update 0 block else 0

abbrev pub upload_data : Crc → Bool → Bytes → Result Part → Result Copied
upload_data crc cal block (ok part) = ok (record { part = part; sum = read_sum crc cal block })
upload_data crc cal block (err e) = err e

-- The call that `doUploadPart` repeats.
unfoldable pub attempt_part : Crc → Bool → ℕ → Attempt → Result Copied
attempt_part crc cal size a = elim a.body [
  | err e ↦ err e
  | ok body ↦ elim (read_full size body) [
    | none ↦ err err_other
    | some (block, rest) ↦ upload_data crc cal block (a.upload block)
  ]
]

-- `doUploadPart`: `attempts` are the answers to the calls by their number.
unfoldable pub upload_part : Crc → Bool → ℕ → (ℕ → Attempt) → Result Copied
unfolding retry attempt_part
upload_part crc cal size attempts = wrapped (retry 3 (λ i. attempt_part crc cal size (attempts i)))

-- What the storages answer to `doCopyRange` of one part. `temp` and the fields after it are for an
-- object of its own that is copied into the part at the destination.
pub record Answers : Type 0 where
  pub part_copy : Bool
  pub direct : ℕ → Attempt
  pub create_temp : ℕ → Result MultipartUpload
  pub temp : Range → ℕ → Attempt
  pub temp_reader : Reader
  pub complete_temp : ℕ → Option Failure
  pub copy_temp : ℕ → Result Part

-- The parts of a list in its order, if all went well.
unfoldable pub all_copied : (Range → Result Copied) → List Range → Option (List (Range × Copied))
all_copied f [] = some []
all_copied f (r ∷ rs) = elim (f r) [
  | err e ↦ none
  | ok c ↦ elim (all_copied f rs) [ none ↦ none | some cs ↦ some ((r, c) ∷ cs) ]
]

-- The checksum of a part of the temporary object, which is read again if it is 0.
unfoldable pub temp_chksum : Crc → Reader → Range → Copied → Option ℕ
temp_chksum crc reader r c =
    if c.sum == 0 then part_chksum crc reader r.off (pos r.len) else some c.sum

-- The loop over the parts after the first.
unfoldable pub combine_temp : Crc → Reader → Option ℕ → List (Range × Copied) → Option ℕ
unfolding temp_chksum
combine_temp crc reader none cs = none
combine_temp crc reader (some sum) [] = some sum
combine_temp crc reader (some sum) ((r, c) ∷ cs) = elim (temp_chksum crc reader r c) [
  | none ↦ none
  | some next ↦ combine_temp crc reader (some (crc.combine sum next r.len)) cs
]

abbrev pub temp_sum : Crc → Reader → Bool → List (Range × Copied) → Option ℕ
temp_sum crc reader false cs = some 0
temp_sum crc reader true [] = some 0
temp_sum crc reader true ((r, c) ∷ cs) = combine_temp crc reader (temp_chksum crc reader r c) cs

-- The temporary object is completed and copied into the part. It is deleted, whatever comes of that.
abbrev pub place_temp : Answers → ℕ → Result Copied
place_temp ans sum =
    let (calls, failed) = try_calls 3 ans.complete_temp in
    elim failed [
      | some e ↦ err err_other
      | none ↦ elim (retry 3 ans.copy_temp) [
        | err e ↦ err e
        | ok part ↦ ok (record { part = part; sum = sum })
      ]
    ]

-- The parts of the temporary object.
abbrev pub temp_ranges : MultipartUpload → ℕ → List Range
temp_ranges up size = part_ranges (choose_part_size up size) size

-- `doCopyRange` where the storage copies parts. Its result does not depend on the order in which the
-- parts of the temporary object end.
unfoldable pub copy_through_temp : Crc → Bool → ℕ → Answers → Result Copied
unfolding upload_part all_copied combine_temp
copy_through_temp crc cal size ans = elim (retry 3 ans.create_temp) [
  | err e ↦ err err_other
  | ok up ↦ elim (all_copied (λ r. upload_part crc cal r.len (ans.temp r)) (temp_ranges up size)) [
    | none ↦ err err_other
    | some cs ↦ elim (temp_sum crc ans.temp_reader cal cs) [
      | none ↦ err err_other
      | some sum ↦ place_temp ans sum
    ]
  ]
]

-- Up to this size a part is never copied through an object of its own.
abbrev pub least_temp_size : ℕ
least_temp_size = 32 * 2 ^ 20

-- `doCopyRange`
unfoldable pub copy_range : Crc → Bool → ℕ → Answers → Result Copied
unfolding copy_through_temp
copy_range crc cal size ans =
    if leb size least_temp_size || not ans.part_copy
    then upload_part crc cal size ans.direct
    else copy_through_temp crc cal size ans

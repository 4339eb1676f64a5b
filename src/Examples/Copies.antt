-- ===== src/Examples/Copies.antt =====
-- Comparing and copying an object of two bytes, with a checksum that adds up the bytes.
pub mod Works
use my_sync.Common.{
  ℕ, zero, suc, ◌+◌, ◌-◌, ◌≤◌, ◌≡◌, refl, ap, sym, ◌∙◌, min, Bool, true, false, Option, none, some,
  List, [], ◌∷◌, ◌++◌, length, length-take, take, drop, sum_by, sum_by-append, arith,
}
use my_sync.Common.Int.{ℤ, pos, pos_part}
use my_sync.Common.Arrival.{Arrives, all_here, comes_next}
use my_sync.Common.Key.{Key-discrete}
use my_sync.Upload.{MultipartUpload, Part}
use my_sync.Parts.{Range, part_ranges, ranges_from, part_count}
use my_sync.Contents.{Bytes, Reader, Crc, block_ranges, compare_objects, object_chksum}
use my_sync.Contents.Blocks.{UpdatesByBlocks, length-drop}
use my_sync.Contents.Objects.{Combines, object_chksum_lem}
use my_sync.Contents.Sameness.{Serves, compare_objects_lem}
use my_sync.Copy.{ok, err, retry, Attempt, Answers}
use my_sync.Completion.{err_other}
use my_sync.Copy.Multiple.{Job, MultipleAnswers}
use my_sync.Copy.Parts.{ReadsRange}
use my_sync.Copy.Sums.{slice, ReadsSource, ok_injective}
use my_sync.Copy.Data.{
  Endpoints, SingleAnswers, DataAnswers, refused, copy_data, copy_single, copy_single_plain,
  put_bytes,
}
use my_sync.Copy.Data.Verified.{Delivers, copy_data-sum}
use my_sync.Examples.{key_a, part_one}

abbrev pub adding : Crc
adding = record { update = λ s xs. s + sum_by (λ b. b) xs; combine = λ a b n. a + b }

pub adding-UpdatesByBlocks : UpdatesByBlocks adding
adding-UpdatesByBlocks =
    ((λ s. omega arith), (λ s xs ys. omega (arith, sum_by-append (λ b. b) xs ys)))

pub adding-Combines : Combines adding
adding-Combines xs ys = omega (arith, sum_by-append (λ b. b) xs ys)

-- A storage that holds these bytes, and delivers exactly what is asked for.
abbrev pub holding : Bytes → Reader
holding xs off len = some (take (pos_part len) (drop off xs))

take-take : (n : ℕ) (xs : Bytes) → take n (take n xs) ≡ take n xs
take-take zero xs = refl
take-take (suc n) [] = refl
take-take (suc n) (x ∷ xs) = ap (◌∷◌ x) (take-take n xs)

pub holding-Serves : (xs : Bytes) → Serves (holding xs) xs
holding-Serves xs off len h = (
  take len (drop off xs),
  refl,
  omega (arith, h, length-take len (drop off xs), length-drop off xs),
  take-take len (drop off xs),
)

abbrev pub two_bytes : Bytes
two_bytes = 3 ∷ 4 ∷ []

abbrev pub other_bytes : Bytes
other_bytes = 3 ∷ 5 ∷ 6 ∷ []

abbrev pub whole_range : Range
whole_range = record { num = 0; off = 0; len = 2 }

one_part : Arrives (block_ranges (pos 2)) (whole_range ∷ [])
unfolding part_ranges ranges_from part_count
one_part = comes_next [] [] whole_range refl all_here

compare_objects_lem_example :
    compare_objects (holding two_bytes) (holding other_bytes) (pos 2) (whole_range ∷ [])
    ≡ some false
unfolding Key-discrete
compare_objects_lem_example =
    compare_objects_lem (holding two_bytes) (holding other_bytes) two_bytes other_bytes 2
      (whole_range ∷ []) (holding-Serves two_bytes) (holding-Serves other_bytes) (omega arith)
      (omega arith) one_part

object_chksum_lem_example : object_chksum adding (holding two_bytes) (pos 2) ≡ some 7
object_chksum_lem_example =
    object_chksum_lem adding (holding two_bytes) two_bytes 2 adding-UpdatesByBlocks adding-Combines
      (holding-Serves two_bytes) (omega arith)

-- Storages that deliver what is asked for, at the first call.
abbrev pub attempt_of : Bytes → ℕ → ℕ → Attempt
attempt_of xs off len = record { body = ok (slice xs off len); upload = λ block. ok part_one }

abbrev pub part_answers : Bytes → Range → Answers
part_answers xs r = record {
  part_copy = false;
  direct = λ i. attempt_of xs r.off r.len;
  create_temp = λ i. err err_other;
  temp = λ p i. attempt_of (slice xs r.off r.len) p.off p.len;
  temp_reader = holding (slice xs r.off r.len);
  complete_temp = λ i. none;
  copy_temp = λ i. ok part_one;
}

abbrev pub multiple_answers : Bytes → MultipleAnswers
multiple_answers xs = record {
  max_part_size = 100;
  part = part_answers xs;
  order = [];
  complete = λ i. none;
  source_gone = false;
}

abbrev pub data_answers : Bytes → DataAnswers
data_answers xs = record {
  single = λ i. record {
    temp_file = true;
    download = ok xs;
    source_gone = false;
    opened = none;
    body = ok xs;
    put = λ bytes. none;
  };
  meta_upload = none;
  create = refused;
  create_again = λ i. err err_other;
  resumed = multiple_answers xs;
  fresh = multiple_answers xs;
  source_gone = false;
}

attempt_of-ReadsSource : (xs : Bytes) (off len : ℕ) → ReadsSource xs off len (attempt_of xs off len)
attempt_of-ReadsSource xs off len body e h =
    ap (take len) (sym (ok_injective (slice xs off len) body e)) ∙ take-take len (drop off xs)

part_answers-ReadsRange : (xs : Bytes) (r : Range) → ReadsRange xs r.off r.len (part_answers xs r)
part_answers-ReadsRange xs r = (
  (λ i. attempt_of-ReadsSource xs r.off r.len),
  (λ p i h. attempt_of-ReadsSource (slice xs r.off r.len) p.off p.len),
  holding-Serves (slice xs r.off r.len),
)

abbrev pub plain_ends : Endpoints
plain_ends = record {
  dst_in_mem = false;
  dst_stream_write = true;
  dst_file_system = true;
  dst_whole_bucket = false;
  src_fast_read = false;
  src_file_system = true;
}

abbrev pub two_byte_job : Job
two_byte_job = record { key = key_a; size = 2; mtime = 7; cal = true }

pub two_bytes-Delivers : Delivers adding two_bytes two_byte_job none (data_answers two_bytes)
two_bytes-Delivers = (
  (λ i. (
    (λ bytes e. sym (ok_injective two_bytes bytes e)),
    (λ bytes e. sym (ok_injective two_bytes bytes e)),
  )),
  (λ r h. part_answers-ReadsRange two_bytes r),
  (λ r h. part_answers-ReadsRange two_bytes r),
  (λ s up r c e. cc e),
)

copy_data-sum_example : 7 ≡ adding.update 0 (take 2 two_bytes)
unfolding copy_data copy_single put_bytes retry
copy_data-sum_example =
    copy_data-sum adding plain_ends two_byte_job two_bytes none (data_answers two_bytes) 7
      adding-UpdatesByBlocks adding-Combines refl (omega arith) two_bytes-Delivers refl

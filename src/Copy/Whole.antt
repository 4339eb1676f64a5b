-- ===== src/Copy/Whole.antt =====
-- The checksum of an object that was copied in parts.
use my_sync.Common.{
  ℕ, ◌+◌, ◌*◌, ◌≤◌, ◌≡◌, refl, sym, ap, subst, ◌∙◌, Bool, true, Option, none, some, List, [], ◌∷◌,
  length, take, arith, Bool-cases, Option-cases, inl, inr, All, ltb,
}
use my_sync.Completion.{err_other, try_calls}
use my_sync.Upload.{MultipartUpload}
use my_sync.Uploads.{Store}
use my_sync.Parts.{Range, part_ranges, choose_part_size}
use my_sync.Parts.Ranges.{Tiles, part_ranges-Tiles}
use my_sync.Parts.Count.{choose_part_size_pos}
use my_sync.Contents.{Bytes, Crc}
use my_sync.Contents.Blocks.{UpdatesByBlocks}
use my_sync.Contents.Objects.{Combines}
use my_sync.Copy.{Result, ok, err, Copied, Answers, all_copied, copy_range}
use my_sync.Copy.Multiple.{
  Job, MultipleAnswers, ensured, saved_part, part_result, object_sum, copy_multiple, copy_parts,
  complete_all, noted, give_up,
}
use my_sync.Copy.Parts.{ReadsRange, combine_copied-whole, copy_range-sum}
use my_sync.Copy.Sums.{slice, RightSum, ranges_of, all_copied-All, ok_injective}

-- What the storages deliver for every part of the object, and the checksums that the store has of
-- parts, are those of the object's bytes.
abbrev pub ReadsParts : Crc → Bytes → Option (ℕ × Store) → (Range → Answers) → Type 0
ReadsParts crc xs state answers =
    ((r : Range) → r.off + r.len ≤ length xs → ReadsRange xs r.off r.len (answers r))
    × ((r : Range) (c : Copied)
        → r.off + r.len ≤ length xs
        → saved_part state true r ≡ some c
        → c.sum ≡ crc.update 0 (slice xs r.off r.len))

part_result-sum :
    (crc : Crc) (job : Job) (xs : Bytes) (state : Option (ℕ × Store)) (answers : Range → Answers)
    (r : Range) (c : Copied)
    → UpdatesByBlocks crc
    → Combines crc
    → job.cal ≡ true
    → ReadsParts crc xs state answers
    → part_result crc job state answers r ≡ ok c
    → RightSum crc xs (r, c)
unfolding part_result
part_result-sum crc job xs state answers r c law combines cal reads e within =
    elim (Option-cases (saved_part state job.cal r)) [
      | inl new ↦
          copy_range-sum crc xs r.off r.len (answers r) c law combines (reads.0 r within) within (
            subst (λ b. copy_range crc b r.len (answers r) ≡ ok c) cal (rw (part_result, new) at e))
      | inr (saved, found) ↦
          subst (λ d. d.sum ≡ crc.update 0 (slice xs r.off r.len))
            (ok_injective saved c (rw (part_result, found) at e))
            (reads.1 r saved within (subst (λ b. saved_part state b r ≡ some saved) cal found))
    ]

object_sum-Tiles :
    (crc : Crc) (part_size : ℕ) (cs : List (Range × Copied)) (end : ℕ) (xs : Bytes)
    → Combines crc
    → Tiles part_size 0 0 (ranges_of cs) end
    → 1 ≤ end
    → end ≤ length xs
    → All (RightSum crc xs) cs
    → object_sum crc true cs ≡ crc.update 0 (take end xs)
object_sum-Tiles crc ps [] end xs combines t n p h = absurd (omega (arith, t, n))
object_sum-Tiles crc ps ((r, c) ∷ cs) end xs combines t n p h =
    combine_copied-whole crc ps r c cs end xs combines t p h

give_up-err :
    (job : Job) (s : Option Store) (gone : Bool) → (give_up job s gone).result ≡ err err_other
give_up-err job none gone = refl
give_up-err job (some s) gone = refl

err_not_ok : (r : Result ℕ) (sum : ℕ) → r ≡ err err_other → ¬ (r ≡ ok sum)
err_not_ok r sum e f = cc (e, f)

complete_all-sum :
    (crc : Crc) (job : Job) (s : Option Store) (ans : MultipleAnswers) (cs : List (Range × Copied))
    (sum : ℕ)
    → (complete_all crc job s ans cs).result ≡ ok sum
    → sum ≡ object_sum crc job.cal cs
complete_all-sum crc job s ans cs sum e = elim (Option-cases (try_calls 3 ans.complete).1) [
  | inr (x, wrong) ↦
      absurd (err_not_ok _ sum (give_up-err job s ans.source_gone) (rw (complete_all, wrong) at e))
  | inl done ↦ sym (ok_injective _ sum (rw (complete_all, done) at e))
]

-- The result of the copy is the checksum of all its parts.
copy_parts-sum :
    (crc : Crc) (job : Job) (state : Option (ℕ × Store)) (ans : MultipleAnswers)
    (ranges : List Range) (sum : ℕ)
    → (copy_parts crc job state ans ranges).result ≡ ok sum
    → (cs : List (Range × Copied)) × (all_copied (part_result crc job state ans.part) ranges
        ≡ some cs)
      × (sum ≡ object_sum crc job.cal cs)
copy_parts-sum crc job state ans ranges sum e =
    elim (Option-cases (all_copied (part_result crc job state ans.part) ranges)) [
      | inl wrong ↦ absurd (
          err_not_ok _ sum (give_up-err job (noted crc job state ans) ans.source_gone)
            (rw (copy_parts, wrong) at e))
      | inr (cs, copied) ↦ (
        cs,
        copied,
        complete_all-sum crc job (noted crc job state ans) ans cs sum
            (rw (copy_parts, copied) at e),
      )
    ]

copy_multiple-parts :
    (crc : Crc) (job : Job) (up : MultipartUpload) (store : Option Store) (ans : MultipleAnswers)
    (sum : ℕ)
    → (copy_multiple crc job up store ans).result ≡ ok sum
    → let part_size = choose_part_size up job.size in
      (copy_parts crc job
        (ensured store job part_size up)
        ans
        (part_ranges part_size job.size)).result
      ≡ ok sum
unfolding copy_multiple
copy_multiple-parts crc job up store ans sum e =
    elim (Bool-cases (ltb (ans.max_part_size * up.max_count) job.size)) [
      | inl large ↦ cc (rw (copy_multiple, large) at e)
      | inr fits ↦ rw (copy_multiple, fits) at e
    ]

-- An object with at least one byte, of which the storages deliver what it has there: where the copy in parts ends well and a checksum is wanted,
-- it is that of the object's bytes, whatever parts the store had from an earlier run, and however
-- often a call was repeated.
pub copy_multiple-sum :
    (crc : Crc) (job : Job) (up : MultipartUpload) (store : Option Store) (ans : MultipleAnswers)
    (xs : Bytes) (sum : ℕ)
    → UpdatesByBlocks crc
    → Combines crc
    → job.cal ≡ true
    → 1 ≤ job.size
    → job.size ≤ length xs
    → ReadsParts crc xs (ensured store job (choose_part_size up job.size) up) ans.part
    → (copy_multiple crc job up store ans).result ≡ ok sum
    → sum ≡ crc.update 0 (take job.size xs)
copy_multiple-sum crc job up store ans xs sum law combines cal n p reads e =
    let part_size = choose_part_size up job.size in
    let state = ensured store job part_size up in
    let (cs, copied, same) =
      copy_parts-sum crc job state ans (part_ranges part_size job.size) sum
        (copy_multiple-parts crc job up store ans sum e) in
    let (ranges, right) =
      all_copied-All (part_result crc job state ans.part) (RightSum crc xs)
        (λ r c. part_result-sum crc job xs state ans.part r c law combines cal reads)
        (part_ranges part_size job.size) cs copied in
    same
    ∙ (ap (λ b. object_sum crc b cs) cal
        ∙ object_sum-Tiles crc part_size cs job.size xs combines
            (subst (λ rs. Tiles part_size 0 0 rs job.size) (sym ranges)
              (part_ranges-Tiles part_size job.size (choose_part_size_pos up job.size) n))
            n p right)

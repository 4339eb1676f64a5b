-- ===== src/Copy/Parts.antt =====
-- The checksums of copied parts are those of the source's bytes.
use my_sync.Common.{
  ℕ, suc, ◌+◌, ◌≤◌, ◌≡◌, refl, sym, ap, subst, ◌∙◌, Bool, true, false, Option, some, List, [], ◌∷◌,
  length, take, drop, arith, Bool-cases, Option-cases, inl, inr, All, leb, length-take, ◌==◌, not,
  ◌||◌,
}
use my_sync.Completion.{try_calls}
use my_sync.Upload.{MultipartUpload}
use my_sync.Parts.{Range, choose_part_size}
use my_sync.Parts.Ranges.{Tiles, part_ranges-Tiles}
use my_sync.Parts.Count.{choose_part_size_pos}
use my_sync.Contents.{Bytes, Reader, Crc}
use my_sync.Contents.Blocks.{UpdatesByBlocks, sum_zero, length-drop}
use my_sync.Contents.Objects.{Combines}
use my_sync.Contents.Sameness.{Serves, part_chksum-Serves, Tiles-same}
use my_sync.Copy.{
  ok, retry, Copied, upload_part, Answers, all_copied, temp_chksum, combine_temp, temp_sum,
  temp_ranges, place_temp, copy_through_temp, copy_range, least_temp_size,
}
use my_sync.Copy.Multiple.{combine_copied}
use my_sync.Copy.Sums.{
  slice, ReadsSource, ok_injective, Result-cases, upload_part-sum, ranges_of, RightSum,
  all_copied-All, combine_copied-Tiles,
}

-- What the storages deliver for the part of `size` bytes from `off` on: the object's bytes, and what
-- was put into the temporary object.
abbrev pub ReadsRange : Bytes → ℕ → ℕ → Answers → Type 0
ReadsRange xs off size ans =
    ((i : ℕ) → ReadsSource xs off size (ans.direct i))
    × ((r : Range) (i : ℕ)
        → r.off + r.len ≤ size
        → ReadsSource (slice xs off size) r.off r.len (ans.temp r i))
    × Serves ans.temp_reader (slice xs off size)

length-slice : (xs : Bytes) (off len : ℕ) → off + len ≤ length xs → length (slice xs off len) ≡ len
length-slice xs off len p = omega (arith, p, length-take len (drop off xs), length-drop off xs)

take-length : (xs : Bytes) → take (length xs) xs ≡ xs
take-length [] = refl
take-length (x ∷ xs) = ap (◌∷◌ x) (take-length xs)

take-all : (n : ℕ) (xs : Bytes) → length xs ≡ n → take n xs ≡ xs
take-all n xs e = rw (sym e) (take-length xs)

temp_chksum-right :
    (crc : Crc) (reader : Reader) (xs : Bytes) (r : Range) (c : Copied)
    → UpdatesByBlocks crc
    → Serves reader xs
    → r.off + r.len ≤ length xs
    → c.sum ≡ crc.update 0 (slice xs r.off r.len)
    → temp_chksum crc reader r c ≡ some c.sum
unfolding temp_chksum
temp_chksum-right crc reader xs r c law serve p right = elim (Bool-cases (c.sum == 0)) [
  | inl e ↦ rw e (part_chksum-Serves crc reader xs r.off r.len law serve p ∙ ap some (sym right))
  | inr e ↦ rw e refl
]

-- The checksums of the temporary object's parts are the ones that were computed, read again or not.
combine_temp-combine_copied :
    (crc : Crc) (reader : Reader) (xs : Bytes) (part_size i off : ℕ) (cs : List (Range × Copied))
    (end sum : ℕ)
    → UpdatesByBlocks crc
    → Serves reader xs
    → Tiles part_size i off (ranges_of cs) end
    → end ≤ length xs
    → All (RightSum crc xs) cs
    → combine_temp crc reader (some sum) cs ≡ some (combine_copied crc sum cs)
unfolding combine_temp combine_copied
combine_temp-combine_copied crc reader xs ps i off [] end sum law serve t p h = refl
combine_temp-combine_copied crc reader xs ps i off ((r, c) ∷ cs) end sum law serve
      (_, start, _, _, later) p h =
    let (_, le, _) = Tiles-same ps (suc i) (off + r.len) (ranges_of cs) end xs xs later p p in
    let within : r.off + r.len ≤ length xs = omega (arith, start, le, p) in
    rw (combine_temp, temp_chksum-right crc reader xs r c law serve within (h.0 within))
      (combine_temp-combine_copied crc reader xs ps (suc i) (off + r.len) cs end
        (crc.combine sum c.sum r.len) law serve later p h.1)

-- From the first part on.
pub combine_copied-whole :
    (crc : Crc) (part_size : ℕ) (r : Range) (c : Copied) (cs : List (Range × Copied)) (end : ℕ)
    (xs : Bytes)
    → Combines crc
    → Tiles part_size 0 0 (r ∷ ranges_of cs) end
    → end ≤ length xs
    → All (RightSum crc xs) ((r, c) ∷ cs)
    → combine_copied crc c.sum cs ≡ crc.update 0 (take end xs)
combine_copied-whole crc ps r c cs end xs combines (_, start, _, _, later) p h =
    let (_, le, _) = Tiles-same ps 1 (0 + r.len) (ranges_of cs) end xs xs later p p in
    let within : r.off + r.len ≤ length xs = omega (arith, start, le, p) in
    rw (h.0 within, start)
      (subst (λ n. combine_copied crc (crc.update 0 (take n xs)) cs ≡ crc.update 0 (take end xs))
        (sum_zero r.len) (combine_copied-Tiles crc ps 1 (0 + r.len) cs end xs combines later p h.1))

temp_sum-Tiles :
    (crc : Crc) (reader : Reader) (xs : Bytes) (part_size : ℕ) (cs : List (Range × Copied))
    → UpdatesByBlocks crc
    → Combines crc
    → Serves reader xs
    → Tiles part_size 0 0 (ranges_of cs) (length xs)
    → 1 ≤ length xs
    → All (RightSum crc xs) cs
    → temp_sum crc reader true cs ≡ some (crc.update 0 xs)
temp_sum-Tiles crc reader xs ps [] law combines serve t p h = absurd (omega (arith, t, p))
temp_sum-Tiles crc reader xs ps ((r, c) ∷ cs) law combines serve t p h =
    let (_, start, _, _, later) = t in
    let (_, le, _) =
      Tiles-same ps 1 (0 + r.len) (ranges_of cs) (length xs) xs xs later (omega arith)
        (omega arith) in
    let within : r.off + r.len ≤ length xs = omega (arith, start, le) in
    rw (temp_chksum-right crc reader xs r c law serve within (h.0 within)) (
      combine_temp-combine_copied crc reader xs ps 1 (0 + r.len) cs (length xs) c.sum law serve
        later (omega arith) h.1
      ∙ ap some (
          combine_copied-whole crc ps r c cs (length xs) xs combines t (omega arith) h
          ∙ ap (crc.update 0) (take-length xs)))

place_temp-sum : (ans : Answers) (sum : ℕ) (c : Copied) → place_temp ans sum ≡ ok c → c.sum ≡ sum
place_temp-sum ans sum c e = elim (Option-cases (try_calls 3 ans.complete_temp).1) [
  | inr (x, wrong) ↦ cc (rw (place_temp, wrong) at e)
  | inl completed ↦ elim (Result-cases (retry 3 ans.copy_temp)) [
    | inr (x, wrong) ↦ cc (rw (place_temp, completed, wrong) at e)
    | inl (part, copied) ↦
        sym (ap (λ d. d.sum) (ok_injective _ c (rw (place_temp, completed, copied) at e)))
  ]
]

copy_through_temp-sum :
    (crc : Crc) (xs : Bytes) (off size : ℕ) (ans : Answers) (c : Copied)
    → UpdatesByBlocks crc
    → Combines crc
    → ReadsRange xs off size ans
    → off + size ≤ length xs
    → 1 ≤ size
    → copy_through_temp crc true size ans ≡ ok c
    → c.sum ≡ crc.update 0 (slice xs off size)
unfolding copy_through_temp
copy_through_temp-sum crc xs off size ans c law combines reads p n e =
    elim (Result-cases (retry 3 ans.create_temp)) [
      | inr (x, wrong) ↦ cc (rw (copy_through_temp, wrong) at e)
      | inl (up, created) ↦ elim (Option-cases (temp_parts up)) [
        | inl wrong ↦ cc (rw (copy_through_temp, created, wrong) at e)
        | inr (cs, uploaded) ↦
            place_temp-sum ans _ c
              (rw (copy_through_temp, created, uploaded, sums up cs uploaded) at e)
      ]
    ]
  where
    temp_parts : MultipartUpload → Option (List (Range × Copied))
    temp_parts up = all_copied (λ r. upload_part crc true r.len (ans.temp r)) (temp_ranges up size)

    sums :
        (up : MultipartUpload) (cs : List (Range × Copied))
        → temp_parts up ≡ some cs
        → temp_sum crc ans.temp_reader true cs ≡ some (crc.update 0 (slice xs off size))
    sums up cs uploaded =
        let whole = length-slice xs off size p in
        let (ranges, right) =
          all_copied-All (λ r. upload_part crc true r.len (ans.temp r))
            (RightSum crc (slice xs off size))
            (λ r c done within.
              upload_part-sum crc (slice xs off size) r.off r.len (ans.temp r) c
                (λ i. reads.1 r i (subst (λ n. r.off + r.len ≤ n) whole within)) done)
            (temp_ranges up size) cs uploaded in
        temp_sum-Tiles crc ans.temp_reader (slice xs off size) (choose_part_size up size) cs law
          combines reads.2
          (subst (λ n. Tiles (choose_part_size up size) 0 0 (ranges_of cs) n) (sym whole)
            (subst (λ rs. Tiles (choose_part_size up size) 0 0 rs size) (sym ranges)
              (part_ranges-Tiles (choose_part_size up size) size (choose_part_size_pos up size) n)))
          (omega (arith, whole, n)) right

-- The checksum of a part that was copied is that of the source's bytes, also where the part was put
-- together from an object of its own.
pub copy_range-sum :
    (crc : Crc) (xs : Bytes) (off size : ℕ) (ans : Answers) (c : Copied)
    → UpdatesByBlocks crc
    → Combines crc
    → ReadsRange xs off size ans
    → off + size ≤ length xs
    → copy_range crc true size ans ≡ ok c
    → c.sum ≡ crc.update 0 (slice xs off size)
unfolding copy_range
copy_range-sum crc xs off size ans c law combines reads p e =
    elim (Bool-cases (leb size least_temp_size || not ans.part_copy)) [
      | inl direct ↦
          upload_part-sum crc xs off size ans.direct c reads.0 (rw (copy_range, direct) at e)
      | inr through ↦
          copy_through_temp-sum crc xs off size ans c law combines reads p
            (some_bytes size ans.part_copy through) (rw (copy_range, through) at e)
    ]
  where
    some_bytes : (size : ℕ) (b : Bool) → (leb size least_temp_size || not b) ≡ false → 1 ≤ size
    some_bytes size b h = ground (arith, h)

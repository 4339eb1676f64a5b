-- ===== src/Contents.antt =====
-- Comparing what two objects hold (pkg/sync/sync.go): `calPartChksum`, `calObjChksum`,
-- `compObjPartBinary` and `compObjBinary`. The limiter and the slots for concurrent reads only
-- delay a read.
pub mod Blocks
pub mod Pieces
pub mod Sameness
pub mod Objects
use my_sync.Common.{
  ℕ, zero, suc, ◌-◌, ◌*◌, ◌==◌, leb, min, Bool, true, false, Option, none, some, List, [], ◌∷◌, map,
  length, take, drop, if◌then◌else◌,
}
use my_sync.Common.Int.{ℤ, pos, negsuc, pos_part, ltb_ℤ}
use my_sync.Common.Key.{Key, key_eq}
use my_sync.Parts.{Range, default_part_size, part_ranges}

abbrev pub Bytes : Type 0
Bytes = List ℕ

-- `Get` of a storage for one object, by offset and length: an error, or what the body delivers.
abbrev pub Reader : Type 0
Reader = ℕ → ℤ → Option Bytes

abbrev pub buffer_size : ℕ
buffer_size = 32768

abbrev pub max_block : ℕ
max_block = default_part_size * 2

-- `io.ReadFull` of n bytes: the bytes and what is left, or an error where the body is shorter.
abbrev pub read_full : ℕ → Bytes → Option (Bytes × Bytes)
read_full n body = if leb n (length body) then some (take n body, drop n body) else none

-- What a comparison says: nil, `bytes not equal`, or any other error.
pub data Compared : Type 0 where
  alike differ unreadable : Compared

-- The loop of `compObjPartBinary`, with `left` bytes to go; each round reads at least one.
unfoldable pub compare_from : ℕ → ℕ → Bytes → Bytes → Compared
compare_from zero left xs ys = alike
compare_from (suc fuel) left xs ys =
    let n = min left buffer_size in
    if left == 0 then alike else elim (read_full n xs) [
      | none ↦ unreadable
      | some (block, xs') ↦ elim (read_full n ys) [
        | none ↦ unreadable
        | some (block', ys') ↦ elim (key_eq block block') [
          | true ↦ compare_from fuel (left - n) xs' ys'
          | false ↦ differ
        ]
      ]
    ]

-- `compObjPartBinary`. A negative length reads nothing.
unfoldable pub compare_part : Reader → Reader → ℕ → ℤ → Compared
unfolding compare_from
compare_part src dst off len = elim (src off len) [
  | none ↦ unreadable
  | some xs ↦ elim (dst off len) [
    | none ↦ unreadable
    | some ys ↦ compare_from (pos_part len) (pos_part len) xs ys
  ]
]

-- The first result that is not nil ends the loop over the results.
unfoldable pub first_bad : List Compared → Compared
first_bad [] = alike
first_bad (alike ∷ rs) = first_bad rs
first_bad (differ ∷ rs) = differ
first_bad (unreadable ∷ rs) = unreadable

abbrev pub compare_range : Reader → Reader → Range → Compared
compare_range src dst r = compare_part src dst r.off (pos r.len)

abbrev pub verdict : Compared → Option Bool
verdict alike = some true
verdict differ = some false
verdict unreadable = none

-- The parts of a large object.
abbrev pub block_ranges : ℤ → List Range
block_ranges size = part_ranges default_part_size (pos_part size)

-- `compObjBinary`: whether the objects are equal, or an error. `arrived` is the order in which
-- the results for the parts of a large object come in.
unfoldable pub compare_objects : Reader → Reader → ℤ → List Range → Option Bool
unfolding compare_part first_bad
compare_objects src dst size arrived =
    if ltb_ℤ size (pos max_block)
    then verdict (compare_part src dst 0 size)
    else verdict (first_bad (map (compare_range src dst) arrived))

-- `hash/crc32` with the Castagnoli table, and `crc32combine`.
pub record Crc : Type 0 where
  pub update : ℕ → Bytes → ℕ
  pub combine : ℕ → ℕ → ℕ → ℕ

-- The loop of `calPartChksum`.
unfoldable pub chksum_from : Crc → ℕ → ℕ → ℕ → Bytes → Option ℕ
chksum_from crc zero left sum body = some sum
chksum_from crc (suc fuel) left sum body =
    let n = min left buffer_size in
    if left == 0 then some sum else elim (read_full n body) [
      | none ↦ none
      | some (block, body') ↦ chksum_from crc fuel (left - n) (crc.update sum block) body'
    ]

-- `calPartChksum`
unfoldable pub part_chksum : Crc → Reader → ℕ → ℤ → Option ℕ
unfolding chksum_from
part_chksum crc reader off len = elim (reader off len) [
  | none ↦ none
  | some body ↦ chksum_from crc (pos_part len) (pos_part len) 0 body
]

-- The checksums of the parts after the first are combined with what is there. If any part fails,
-- so does the object, whichever result comes first.
unfoldable pub combine_parts : Crc → Reader → Option ℕ → List Range → Option ℕ
combine_parts crc reader none rs = none
combine_parts crc reader (some sum) [] = some sum
combine_parts crc reader (some sum) (r ∷ rs) = elim (part_chksum crc reader r.off (pos r.len)) [
  | none ↦ none
  | some next ↦ combine_parts crc reader (some (crc.combine sum next r.len)) rs
]

abbrev pub combine_all : Crc → Reader → List Range → Option ℕ
combine_all crc reader [] = none
combine_all crc reader (r ∷ rs) =
    combine_parts crc reader (part_chksum crc reader r.off (pos r.len)) rs

-- `calObjChksum`
unfoldable pub object_chksum : Crc → Reader → ℤ → Option ℕ
unfolding part_chksum combine_parts
object_chksum crc reader size =
    if ltb_ℤ size (pos max_block)
    then part_chksum crc reader 0 size
    else combine_all crc reader (block_ranges size)

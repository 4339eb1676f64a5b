-- ===== src/Contents/Objects.antt =====
-- What the comparison and the checksum of whole objects say, with storages that serve what is asked.
use my_sync.Common.{
  ℕ, suc, ◌+◌, ◌≤◌, ◌≡◌, sym, ap, subst, ◌∙◌, some, List, [], ◌∷◌, ◌++◌, length, take, drop,
  length-take, arith, Bool-cases, inl, inr,
}
use my_sync.Common.Int.{pos, ltb_ℤ}
use my_sync.Parts.{Range, default_part_size}
use my_sync.Parts.Ranges.{Tiles, part_ranges-Tiles}
use my_sync.Contents.{
  Bytes, Reader, block_ranges, Crc, part_chksum, combine_parts, combine_all, object_chksum,
  max_block,
}
use my_sync.Contents.Blocks.{sum_zero, take_add, length-drop, UpdatesByBlocks}
use my_sync.Contents.Sameness.{Serves, part_chksum-Serves, Tiles-same, large}

-- The law of `crc32combine`: the checksum of bytes one behind the other, from those of either, and the length of the second.
abbrev pub Combines : Crc → Type 0
Combines crc =
    (xs ys : Bytes)
    → crc.combine (crc.update 0 xs) (crc.update 0 ys) (length ys) ≡ crc.update 0 (xs ++ ys)

pub combine-next :
    (crc : Crc) (off len : ℕ) (xs : Bytes)
    → Combines crc
    → off + len ≤ length xs
    → crc.combine (crc.update 0 (take off xs)) (crc.update 0 (take len (drop off xs))) len
      ≡ crc.update 0 (take (off + len) xs)
combine-next crc off len xs combines p =
    ap (crc.combine (crc.update 0 (take off xs)) (crc.update 0 (take len (drop off xs)))) exact
    ∙ (combines (take off xs) (take len (drop off xs))
        ∙ ap (crc.update 0) (sym (take_add off len xs)))
  where
    exact : len ≡ length (take len (drop off xs))
    exact = omega (arith, p, length-take len (drop off xs), length-drop off xs)

pub range_chksum :
    (crc : Crc) (reader : Reader) (xs : Bytes) (r : Range) (off : ℕ)
    → UpdatesByBlocks crc
    → Serves reader xs
    → r.off ≡ off
    → off + r.len ≤ length xs
    → part_chksum crc reader r.off (pos r.len) ≡ some (crc.update 0 (take r.len (drop off xs)))
range_chksum crc reader xs r off law serve start p =
    ap (λ n. part_chksum crc reader n (pos r.len)) start
    ∙ part_chksum-Serves crc reader xs off r.len law serve p

combine_parts-Tiles :
    (crc : Crc) (reader : Reader) (part_size i off : ℕ) (rs : List Range) (end : ℕ) (xs : Bytes)
    → UpdatesByBlocks crc
    → Combines crc
    → Serves reader xs
    → Tiles part_size i off rs end
    → end ≤ length xs
    → combine_parts crc reader (some (crc.update 0 (take off xs))) rs
      ≡ some (crc.update 0 (take end xs))
unfolding combine_parts
combine_parts-Tiles crc reader ps i off [] end xs law combines serve t p =
    ap (λ n. some (crc.update 0 (take n xs))) t
combine_parts-Tiles crc reader ps i off (r ∷ rs) end xs law combines serve (_, start, _, _, later)
      p =
    let (_, le, _) = Tiles-same ps (suc i) (off + r.len) rs end xs xs later p p in
    rw
      (
        combine_parts,
        range_chksum crc reader xs r off law serve start (omega (arith, le, p)),
        combine-next crc off r.len xs combines (omega (arith, le, p)),
      )
      (combine_parts-Tiles crc reader ps (suc i) (off + r.len) rs end xs law combines serve later p)

combine_all-Tiles :
    (crc : Crc) (reader : Reader) (part_size : ℕ) (rs : List Range) (end : ℕ) (xs : Bytes)
    → UpdatesByBlocks crc
    → Combines crc
    → Serves reader xs
    → 1 ≤ end
    → Tiles part_size 0 0 rs end
    → end ≤ length xs
    → combine_all crc reader rs ≡ some (crc.update 0 (take end xs))
combine_all-Tiles crc reader ps [] end xs law combines serve n t p = absurd (omega (arith, n, t))
combine_all-Tiles crc reader ps (r ∷ rs) end xs law combines serve n (_, start, _, _, later) p =
    let (_, le, _) = Tiles-same ps 1 (0 + r.len) rs end xs xs later p p in
    rw (range_chksum crc reader xs r 0 law serve start (omega (arith, le, p))) (
      subst
        (λ n.
          combine_parts crc reader (some (crc.update 0 (take n xs))) rs
          ≡ some (crc.update 0 (take end xs)))
        (sum_zero r.len)
        (combine_parts-Tiles crc reader ps 1 (0 + r.len) rs end xs law combines serve later p))

-- A storage that serves its object, with checksums that are updated by one block after another
-- and combined from those of parts: the checksum of an object is that of its bytes, whether it is read at once or in parts.
pub object_chksum_lem :
    (crc : Crc) (reader : Reader) (xs : Bytes) (size : ℕ)
    → UpdatesByBlocks crc
    → Combines crc
    → Serves reader xs
    → size ≤ length xs
    → object_chksum crc reader (pos size) ≡ some (crc.update 0 (take size xs))
unfolding object_chksum
object_chksum_lem crc reader xs size law combines serve p =
    elim (Bool-cases (ltb_ℤ (pos size) (pos max_block))) [
      | inl e ↦ rw e (part_chksum-Serves crc reader xs 0 size law serve (omega (arith, p)))
      | inr e ↦ rw e (
          combine_all-Tiles crc reader default_part_size (block_ranges (pos size)) size xs law
            combines serve (omega (arith, large size e))
            (part_ranges-Tiles default_part_size size (omega arith) (omega (arith, large size e)))
            p)
    ]

-- ===== src/Contents/Sameness.antt =====
-- What the comparison of whole objects says, with storages that serve what is asked.
use my_sync.Common.{
  ℕ, suc, ◌+◌, ◌-◌, ◌≤◌, ◌≡◌, ◌↔◌, ◌⊎◌, refl, sym, ap, subst, ◌∙◌, Bool, true, false, some, List,
  [], ◌∷◌, ◌++◌, length, take, drop, length-take, arith, if◌then◌else◌, Bool-cases, inl, inr, All,
  map,
}
use my_sync.Common.Int.{pos, ltb_ℤ}
use my_sync.Common.Arrival.{Arrives, All-Arrives, All-Arrives_back}
use my_sync.Common.Key.{key_eq}
use my_sync.Parts.{Range, default_part_size}
use my_sync.Parts.Ranges.{Tiles, part_ranges-Tiles}
use my_sync.Contents.{
  Bytes, Reader, alike, differ, compare_part, first_bad, compare_range, verdict, block_ranges,
  compare_objects, Crc, part_chksum, max_block,
}
use my_sync.Contents.Blocks.{
  take_add, drop_add, append_injective, key_eq_iff, length-drop, compare_from-take,
  chksum_from-take, UpdatesByBlocks,
}

-- A storage that serves the object: what is asked for is what the body starts with.
abbrev pub Serves : Reader → Bytes → Type 0
Serves reader xs =
    (off len : ℕ)
    → off + len ≤ length xs
    → (body : Bytes) × (reader off (pos len) ≡ some body)
      × (len ≤ length body)
      × (take len body ≡ take len (drop off xs))

abbrev SameAt : Bytes → Bytes → Range → Type 0
SameAt xs ys r = take r.len (drop r.off xs) ≡ take r.len (drop r.off ys)

abbrev Within : Bytes → Bytes → Range → Type 0
Within xs ys r = (r.off + r.len ≤ length xs) × (r.off + r.len ≤ length ys)

pub compare_part-Serves :
    (src dst : Reader) (xs ys : Bytes) (off len : ℕ)
    → Serves src xs
    → Serves dst ys
    → off + len ≤ length xs
    → off + len ≤ length ys
    → compare_part src dst off (pos len)
      ≡ (if key_eq (take len (drop off xs)) (take len (drop off ys)) then alike else differ)
unfolding compare_part
compare_part-Serves src dst xs ys off len serve serve' p q =
    let (body, read, long, same) = serve off len p in
    let (body', read', long', same') = serve' off len q in
    rw (compare_part, read, read', sym same, sym same')
      (compare_from-take len len body body' (omega arith) long long')

pub part_chksum-Serves :
    (crc : Crc) (reader : Reader) (xs : Bytes) (off len : ℕ)
    → UpdatesByBlocks crc
    → Serves reader xs
    → off + len ≤ length xs
    → part_chksum crc reader off (pos len) ≡ some (crc.update 0 (take len (drop off xs)))
unfolding part_chksum
part_chksum-Serves crc reader xs off len law serve p =
    let (body, read, long, same) = serve off len p in
    rw (part_chksum, read, sym same) (chksum_from-take crc len len 0 body law (omega arith) long)

-- The results, in the order they come in: equal exactly when every part is.
first_bad-same :
    (src dst : Reader) (xs ys : Bytes) (order : List Range)
    → Serves src xs
    → Serves dst ys
    → All (Within xs ys) order
    → ((first_bad (map (compare_range src dst) order) ≡ alike) × All (SameAt xs ys) order)
      ⊎ ((first_bad (map (compare_range src dst) order) ≡ differ) × ¬ (All (SameAt xs ys) order))
unfolding first_bad
first_bad-same src dst xs ys [] serve serve' w = inl (refl, tt)
first_bad-same src dst xs ys (r ∷ rs) serve serve' w =
    let rest = first_bad-same src dst xs ys rs serve serve' w.1 in
    let same = key_eq_iff (take r.len (drop r.off xs)) (take r.len (drop r.off ys)) in
    rw (compare_part-Serves src dst xs ys r.off r.len serve serve' w.0.0 w.0.1)
      (elim (Bool-cases (key_eq (take r.len (drop r.off xs)) (take r.len (drop r.off ys)))) [
        | inl e ↦ rw e (elim rest [
          | inl (ok, all) ↦ inl (ok, (same.0 e, all))
          | inr (bad, not_all) ↦ inr (bad, λ h. not_all h.1)
        ])
        | inr e ↦ rw e (inr (refl, λ h. cc (same.1 h.0, e)))
      ])

slice-split :
    (off len end : ℕ) (zs : Bytes)
    → off + len ≤ end
    → take (end - off) (drop off zs)
      ≡ take len (drop off zs) ++ take (end - (off + len)) (drop (off + len) zs)
slice-split off len end zs h =
    rw (drop_add off len zs)
      (ap (λ n. take n (drop off zs)) whole ∙ take_add len (end - (off + len)) (drop off zs))
  where
    whole : end - off ≡ len + (end - (off + len))
    whole = omega (arith, h)

-- The parts that tile the bytes from `off` to `end` agree exactly when these do.
pub Tiles-same :
    (part_size i off : ℕ) (rs : List Range) (end : ℕ) (xs ys : Bytes)
    → Tiles part_size i off rs end
    → end ≤ length xs
    → end ≤ length ys
    → All (Within xs ys) rs
      × (off ≤ end)
      × (All (SameAt xs ys) rs ↔ (take (end - off) (drop off xs) ≡ take (end - off) (drop off ys)))
Tiles-same ps i off [] end xs ys t p q =
    (tt, omega (arith, t), ((λ h. rw none_left refl), (λ h. tt)))
  where
    none_left : end - off ≡ 0
    none_left = omega (arith, t)
Tiles-same ps i off (r ∷ rs) end xs ys (_, start, _, _, later) p q =
    let (within, le, same) = Tiles-same ps (suc i) (off + r.len) rs end xs ys later p q in
    rw (start, slice-split off r.len end xs le, slice-split off r.len end ys le)
      (
        ((omega (arith, le, p), omega (arith, le, q)), within),
        omega (arith, le),
        (
          (λ h. cc (h.0, same.0 h.1)),
          (λ h.
              let (first, rest) =
                append_injective _ _ _ _
                  (omega (
                    arith,
                    le,
                    p,
                    q,
                    length-take r.len (drop off xs),
                    length-take r.len (drop off ys),
                    length-drop off xs,
                    length-drop off ys,
                  ))
                  h in
              (first, same.1 rest)),
        ),
      )

not_equal : (xs ys : Bytes) → ¬ (xs ≡ ys) → key_eq xs ys ≡ false
not_equal xs ys h = ground arith

block_ranges-same :
    (size : ℕ) (xs ys : Bytes)
    → 1 ≤ size
    → size ≤ length xs
    → size ≤ length ys
    → All (Within xs ys) (block_ranges (pos size))
      × (All (SameAt xs ys) (block_ranges (pos size)) ↔ (take size xs ≡ take size ys))
block_ranges-same size xs ys some_bytes p q =
    let (within, _, same) =
      Tiles-same default_part_size 0 0 (block_ranges (pos size)) size xs ys
        (part_ranges-Tiles default_part_size size (omega arith) some_bytes) p q in
    (
      within,
      subst (λ n. All (SameAt xs ys) (block_ranges (pos size)) ↔ (take n xs ≡ take n ys))
          (less_zero size) same,
    )
  where
    less_zero : (n : ℕ) → n - 0 ≡ n
    less_zero n = omega arith

-- The parts of a large object, in the order in which their results arrive.
compare_parts :
    (src dst : Reader) (xs ys : Bytes) (size : ℕ) (order : List Range)
    → Serves src xs
    → Serves dst ys
    → 1 ≤ size
    → size ≤ length xs
    → size ≤ length ys
    → Arrives (block_ranges (pos size)) order
    → verdict (first_bad (map (compare_range src dst) order))
      ≡ some (key_eq (take size xs) (take size ys))
compare_parts src dst xs ys size order serve serve' some_bytes p q arrives =
    let (within, same) = block_ranges-same size xs ys some_bytes p q in
    elim (first_bad-same src dst xs ys order serve serve'
      (All-Arrives (Within xs ys) arrives within)) [
        | inl (ok, all) ↦
            rw
              (
                ok,
                (key_eq_iff (take size xs) (take size ys)).1
                    (same.0 (All-Arrives_back (SameAt xs ys) arrives all)),
              )
              refl
        | inr (bad, not_all) ↦
            rw
              (
                bad,
                not_equal (take size xs) (take size ys)
                    (λ h. not_all (All-Arrives (SameAt xs ys) arrives (same.1 h))),
              )
              refl
      ]

pub large : (n : ℕ) → ltb_ℤ (pos n) (pos max_block) ≡ false → max_block ≤ n
large n h = ground arith

verdict-alike_or_differ : (b : Bool) → verdict (if b then alike else differ) ≡ some b
verdict-alike_or_differ true = refl
verdict-alike_or_differ false = refl

-- Two storages that serve their objects: as far as both objects have the bytes, and whatever the order in
-- which the results for the parts arrive, the comparison ends without an error and says whether
-- the bytes up to the given size are equal.
pub compare_objects_lem :
    (src dst : Reader) (xs ys : Bytes) (size : ℕ) (order : List Range)
    → Serves src xs
    → Serves dst ys
    → size ≤ length xs
    → size ≤ length ys
    → Arrives (block_ranges (pos size)) order
    → compare_objects src dst (pos size) order ≡ some (key_eq (take size xs) (take size ys))
unfolding compare_objects
compare_objects_lem src dst xs ys size order serve serve' p q arrives =
    elim (Bool-cases (ltb_ℤ (pos size) (pos max_block))) [
      | inl e ↦
          rw
            (
              e,
              compare_part-Serves src dst xs ys 0 size serve serve' (omega (arith, p))
                  (omega (arith, q)),
            )
            (verdict-alike_or_differ (key_eq (take size xs) (take size ys)))
      | inr e ↦ rw e (
          compare_parts src dst xs ys size order serve serve' (omega (arith, large size e)) p q
            arrives)
    ]

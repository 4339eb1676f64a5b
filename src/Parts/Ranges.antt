-- ===== src/Parts/Ranges.antt =====
-- The parts of an object tile it.
use native.Mathlib.Nat.{div-mul-le_self, lt-div-mul-add}
use my_sync.Common.{
  ℕ, zero, suc, ◌+◌, ◌-◌, ◌*◌, ◌/◌, ◌≤◌, ◌<◌, ◌≡◌, refl, subst, sym, List, [], ◌∷◌, arith,
}
use my_sync.Parts.{Range, ranges_from, part_count, part_ranges}

-- Ranges from `off` to `end`, numbered from `i`, each of which starts where the one before ends and
-- has at least one byte and at most a part's.
abbrev pub Tiles : ℕ → ℕ → ℕ → List Range → ℕ → Type 0
Tiles part_size i off [] end = off ≡ end
Tiles part_size i off (r ∷ rs) end =
    (r.num ≡ i)
    × (r.off ≡ off)
    × (1 ≤ r.len)
    × (r.len ≤ part_size)
    × Tiles part_size (suc i) (off + r.len) rs end

next_part : (i more : ℕ) → i + suc more ≡ suc i + more
next_part i more = omega arith

ranges_from-Tiles :
    (part_size size i more off : ℕ)
    → 1 ≤ part_size
    → off ≡ i * part_size
    → (i + more) * part_size < size
    → size ≤ (i + more) * part_size + part_size
    → Tiles part_size i off (ranges_from part_size size i (suc more)) size
unfolding ranges_from
ranges_from-Tiles ps size i zero off p e low high =
    (refl, sym e, ground (arith, low), ground (arith, high), ground (arith, low, e))
ranges_from-Tiles ps size i (suc more) off p e low high = (
  refl,
  sym e,
  p,
  omega arith,
  ranges_from-Tiles ps size (suc i) more (off + ps) p (omega arith)
      (subst (λ n. n * ps < size) (next_part i more) low)
      (subst (λ n. size ≤ n * ps + ps) (next_part i more) high),
)

-- The parts of an object that is not empty lie one behind the other from its start to its end,
-- numbered from 0, and each has at least one byte and at most a part's.
pub part_ranges-Tiles :
    (part_size size : ℕ)
    → 1 ≤ part_size
    → 1 ≤ size
    → Tiles part_size 0 0 (part_ranges part_size size) size
unfolding part_ranges part_count
part_ranges-Tiles ps size p q =
    subst (λ n. Tiles ps 0 0 (ranges_from ps size 0 n) size) one_more
      (ranges_from-Tiles ps size 0 ((size - 1) / ps) 0 p (omega arith)
        (omega (arith, div-mul-le_self (size - 1) ps))
        (omega (arith, lt-div-mul-add {a = size - 1} {b = ps} p)))
  where
    one_more : suc ((size - 1) / ps) ≡ (size - 1) / ps + 1
    one_more = omega arith

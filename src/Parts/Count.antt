-- ===== src/Parts/Count.antt =====
-- How many parts an object has.
use native.Mathlib.Nat.{
  lt-div-mul-add, div-lt_iff_lt-mul, mul-add-div_right, div-eq_of_lt, mul-le-mul_right,
  mul-le-mul_left, mul_comm,
}
use my_sync.Common.{
  ℕ, ◌+◌, ◌-◌, ◌*◌, ◌/◌, ◌≤◌, ◌<◌, ◌≡◌, ap, sym, subst, ◌∙◌, arith, ltb, lt→ltb, Bool-cases, inl,
  inr,
}
use my_sync.Upload.{MultipartUpload}
use my_sync.Parts.{mebibyte, least_part_size, align_mebibyte, choose_part_size, part_count}

align_mebibyte-le : (n : ℕ) → (n ≤ align_mebibyte n) × (mebibyte ≤ align_mebibyte n)
align_mebibyte-le n = (omega arith, omega arith)

align_mebibyte-whole : (q : ℕ) → 1 ≤ q → align_mebibyte (q * mebibyte) ≡ q * mebibyte
align_mebibyte-whole q h = omega arith

part_count-le :
    (part_size size bound : ℕ)
    → 1 ≤ part_size
    → 1 ≤ size
    → size ≤ bound * part_size
    → part_count part_size size ≤ bound
unfolding part_count
part_count-le ps size bound p s h =
    let fewer = (div-lt_iff_lt-mul {k = ps} {x = size - 1} {y = bound} p).1 (omega arith) in
    omega (arith, fewer)

-- An enlarged part size cuts the object into at most one part more than the storage takes.
enlarged_bound :
    (size count : ℕ)
    → 1 ≤ count
    → count ≤ mebibyte
    → size ≤ (count + 1) * align_mebibyte (size / count)
enlarged_bound size count p small =
    let quotient = lt-div-mul-add {a = size} {b = count} p in
    let (above, whole) = align_mebibyte-le (size / count) in
    let grown = mul-le-mul_left count above in
    subst (λ n. size ≤ n) (sym (split_last (align_mebibyte (size / count)) count))
      (omega (arith, quotient, grown, mul_comm (size / count) count))
  where
    split_last : (n k : ℕ) → (k + 1) * n ≡ k * n + n
    split_last n k = omega arith

pub choose_part_size_pos : (up : MultipartUpload) (size : ℕ) → 1 ≤ choose_part_size up size
unfolding choose_part_size
choose_part_size_pos up size = ground arith

choose_part_size-bound :
    (up : MultipartUpload) (size : ℕ)
    → 1 ≤ up.max_count
    → up.max_count ≤ mebibyte
    → size ≤ (up.max_count + 1) * choose_part_size up size
unfolding choose_part_size
choose_part_size-bound up size p small =
    elim (Bool-cases (ltb (least_part_size up * up.max_count) size)) [
      | inl e ↦ rw e (enlarged_bound size up.max_count p small)
      | inr e ↦ rw e (covered (least_part_size up) up.max_count size (ground (arith, e)))
    ]
  where
    covered : (n k size : ℕ) → size ≤ n * k → size ≤ (k + 1) * n
    covered n k size h = omega (arith, h, mul_comm n k)

-- An object of at least one byte is cut into at most one part more than the storage takes, which is
-- between 1 and 2^20 parts, and into no more than it takes where so many parts of the chosen size
-- cover the object.
pub part_count-choose_part_size :
    (up : MultipartUpload) (size : ℕ)
    → 1 ≤ up.max_count
    → up.max_count ≤ mebibyte
    → 1 ≤ size
    → let count = part_count (choose_part_size up size) size in
      (count ≤ up.max_count + 1)
      × (size ≤ up.max_count * choose_part_size up size → count ≤ up.max_count)
part_count-choose_part_size up size p small s = (
  part_count-le (choose_part_size up size) size (up.max_count + 1) (choose_part_size_pos up size) s
      (choose_part_size-bound up size p small),
  part_count-le (choose_part_size up size) size up.max_count (choose_part_size_pos up size) s,
)

whole_quotient : (n k rest : ℕ) → rest < k → (n * k + rest) / k ≡ n
whole_quotient n k rest h =
    mul-add-div_right {m = k} (omega (arith, h)) n rest
    ∙ (ap (λ d. n + d) (div-eq_of_lt h) ∙ omega arith)

choose_part_size-exact :
    (up : MultipartUpload) (whole rest : ℕ)
    → 1 ≤ whole
    → least_part_size up ≤ whole * mebibyte
    → 1 ≤ rest
    → rest < up.max_count
    → choose_part_size up (whole * mebibyte * up.max_count + rest) ≡ whole * mebibyte
unfolding choose_part_size
choose_part_size-exact up q r w l p below =
    rw (lt→ltb (least_part_size up * up.max_count) (q * mebibyte * up.max_count + r) larger) (
      ap align_mebibyte (whole_quotient (q * mebibyte) up.max_count r below)
      ∙ align_mebibyte-whole q w)
  where
    larger : least_part_size up * up.max_count < q * mebibyte * up.max_count + r
    larger = omega (arith, mul-le-mul_right up.max_count l, p)

part_count-exact : (n k rest : ℕ) → 1 ≤ rest → rest ≤ n → part_count n (n * k + rest) ≡ k + 1
unfolding part_count
part_count-exact n k rest p h =
    ap (λ m. m / n + 1) (one_less (n * k) rest p ∙ ap (λ m. m + (rest - 1)) (mul_comm n k))
    ∙ ap (λ m. m + 1) (whole_quotient k n (rest - 1) (omega (arith, p, h)))
  where
    one_less : (m r : ℕ) → 1 ≤ r → m + r - 1 ≡ m + (r - 1)
    one_less m r h = omega (arith, h)

-- The bound of the storage is passed by one part where the object's size divided by the part
-- count is a whole number of mebibytes, at least the part size that the storage asks for, and
-- leaves a remainder, which is no more than that.
pub part_count_too_large :
    (up : MultipartUpload) (whole rest : ℕ)
    → 1 ≤ whole
    → least_part_size up ≤ whole * mebibyte
    → 1 ≤ rest
    → rest < up.max_count
    → rest ≤ whole * mebibyte
    → let size = whole * mebibyte * up.max_count + rest in
      part_count (choose_part_size up size) size ≡ up.max_count + 1
part_count_too_large up q r w l p below short =
    ap (λ n. part_count n (q * mebibyte * up.max_count + r))
      (choose_part_size-exact up q r w l p below)
    ∙ part_count-exact (q * mebibyte) up.max_count r p short

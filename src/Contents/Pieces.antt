-- ===== src/Contents/Pieces.antt =====
-- Pieces of lists: what a part of a block is in the object.
use my_sync.Common.{
  ℕ, zero, suc, ◌+◌, ◌-◌, ◌≤◌, ◌≡◌, refl, sym, ap, ◌∙◌, [], ◌∷◌, ◌++◌, length, take, drop, arith,
  min, length-take,
}
use my_sync.Contents.{Bytes}
use my_sync.Contents.Blocks.{take_add, drop_add}

min-zero : (n : ℕ) → min zero n ≡ zero
min-zero n = omega arith

pub min-same : (m n : ℕ) → m ≡ n → min m n ≡ n
min-same m n h = omega arith

min-zero_right : (n : ℕ) → min n zero ≡ zero
min-zero_right n = omega arith

min-suc : (m n : ℕ) → min (suc m) (suc n) ≡ suc (min m n)
min-suc m n = omega arith

pub take-take : (m n : ℕ) (xs : Bytes) → take m (take n xs) ≡ take (min m n) xs
take-take zero n xs = rw (min-zero n) refl
take-take (suc m) zero xs = rw (min-zero_right (suc m)) refl
take-take (suc m) (suc n) [] = rw (min-suc m n) refl
take-take (suc m) (suc n) (x ∷ xs) = rw (min-suc m n) (ap (◌∷◌ x) (take-take m n xs))

sub_suc : (m n : ℕ) → suc n - suc m ≡ n - m
sub_suc m n = omega arith

zero_sub : (m : ℕ) → zero - m ≡ zero
zero_sub m = omega arith

sub_zero : (n : ℕ) → n - zero ≡ n
sub_zero n = omega arith

take-nothing : (n : ℕ) → take {A = ℕ} n [] ≡ []
take-nothing zero = refl
take-nothing (suc n) = refl

drop-take : (m n : ℕ) (xs : Bytes) → drop m (take n xs) ≡ take (n - m) (drop m xs)
drop-take zero n xs = rw (sub_zero n) refl
drop-take (suc m) zero xs = rw (zero_sub (suc m)) refl
drop-take (suc m) (suc n) [] = sym (take-nothing (suc n - suc m))
drop-take (suc m) (suc n) (x ∷ xs) = rw (sub_suc m n) (drop-take m n xs)

-- What is read of a block stands in the object at the reader's place.
pub bytes_in_block :
    (content : Bytes) (n pos off len : ℕ)
    → off ≤ pos
    → take n (drop (pos - off) (take len (drop off content)))
      ≡ take (min n (len - (pos - off))) (drop pos content)
bytes_in_block content n pos off len h =
    ap (take n) (drop-take (pos - off) len (drop off content))
    ∙ take-take n (len - (pos - off)) (drop (pos - off) (drop off content))
    ∙ ap (take (min n (len - (pos - off)))) (sym (drop_add off (pos - off) content) ∙ place)
  where
    at : off + (pos - off) ≡ pos
    at = omega arith

    place : drop (off + (pos - off)) content ≡ drop pos content
    place = ap (λ k. drop k content) at

take-min : (n : ℕ) (xs : Bytes) → take (length (take n xs)) xs ≡ take n xs
take-min zero xs = refl
take-min (suc n) [] = refl
take-min (suc n) (x ∷ xs) = ap (◌∷◌ x) (take-min n xs)

-- Bytes that stand at a place of the object extend what was read up to there.
pub taken_further :
    (content bytes : Bytes) (pos m : ℕ)
    → bytes ≡ take m (drop pos content)
    → take pos content ++ bytes ≡ take (pos + length bytes) content
taken_further content bytes pos m e =
    sym (take_add pos (length bytes) content ∙ ap (◌++◌ (take pos content)) again)
  where
    again : take (length bytes) (drop pos content) ≡ bytes
    again = rw e (take-min m (drop pos content))

pub take_past : (n : ℕ) (xs : Bytes) → length xs ≤ n → take n xs ≡ xs
take_past zero [] h = refl
take_past (suc n) [] h = refl
take_past zero (x ∷ xs) h = absurd (omega (arith, h))
take_past (suc n) (x ∷ xs) h = ap (◌∷◌ x) (take_past n xs (omega (arith, h)))

pub length-take_le : (n : ℕ) (xs : Bytes) → length (take n xs) ≤ length xs
length-take_le n xs = omega (arith, length-take {0} n xs)

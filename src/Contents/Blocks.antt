-- ===== src/Contents/Blocks.antt =====
-- What the loops over the buffer compute: the whole of the bytes that are asked for.
use my_sync.Common.{
  ℕ, zero, suc, ◌+◌, ◌-◌, ◌≤◌, ◌≡◌, ◌↔◌, refl, sym, ap, ◌∙◌, min, true, false, some, List, [], ◌∷◌,
  ◌++◌, length, take, drop, length-take, arith, if◌then◌else◌, ◌==◌, Bool-cases, inl, inr,
}
use my_sync.Common.Key.{key_eq, Key}
use my_sync.Contents.{Bytes, buffer_size, read_full, alike, differ, compare_from, Crc, chksum_from}

pub length-drop {ℓ} : {A : Type ℓ} (n : ℕ) (xs : List A) → length (drop n xs) ≡ length xs - n
length-drop zero xs = omega arith
length-drop (suc n) [] = omega arith
length-drop (suc n) (x ∷ xs) = omega (arith, length-drop n xs)

pub sum_zero : (n : ℕ) → 0 + n ≡ n
sum_zero n = omega arith

sum_suc : (m n : ℕ) → suc m + n ≡ suc (m + n)
sum_suc m n = omega arith

take-nil {ℓ} : {A : Type ℓ} (n : ℕ) → take {A = A} n [] ≡ []
take-nil zero = refl
take-nil (suc n) = refl

drop-nil {ℓ} : {A : Type ℓ} (n : ℕ) → drop {A = A} n [] ≡ []
drop-nil zero = refl
drop-nil (suc n) = refl

pub take_add {ℓ} :
    {A : Type ℓ} (m n : ℕ) (xs : List A) → take (m + n) xs ≡ take m xs ++ take n (drop m xs)
take_add zero n xs = ap (λ k. take k xs) (sum_zero n)
take_add (suc m) n [] = take-nil (suc m + n) ∙ sym (take-nil n)
take_add (suc m) n (x ∷ xs) = ap (λ k. take k (x ∷ xs)) (sum_suc m n) ∙ ap (◌∷◌ x) (take_add m n xs)

pub append_injective :
    (bs cs xs ys : Bytes) → length bs ≡ length cs → bs ++ xs ≡ cs ++ ys → (bs ≡ cs) × (xs ≡ ys)
append_injective [] [] xs ys l e = (refl, e)
append_injective [] (c ∷ cs) xs ys l e = absurd (omega (arith, l))
append_injective (b ∷ bs) [] xs ys l e = absurd (omega (arith, l))
append_injective (b ∷ bs) (c ∷ cs) xs ys l e =
    let (same, rest) = append_injective bs cs xs ys (omega (arith, l)) (cc (e)) in
    (cc (same, e), rest)

pub drop_add {ℓ} : {A : Type ℓ} (m n : ℕ) (xs : List A) → drop (m + n) xs ≡ drop n (drop m xs)
drop_add zero n xs = ap (λ k. drop k xs) (sum_zero n)
drop_add (suc m) n [] = drop-nil (suc m + n) ∙ sym (drop-nil n)
drop_add (suc m) n (x ∷ xs) = ap (λ k. drop k (x ∷ xs)) (sum_suc m n) ∙ drop_add m n xs

pub key_eq_iff : (k j : Key) → (key_eq k j ≡ true) ↔ (k ≡ j)
key_eq_iff k j = ground arith

key_eq_nil : key_eq [] [] ≡ true
key_eq_nil = ground arith

not_done : (k : ℕ) → (suc k == 0) ≡ false
not_done k = ground arith

-- Two texts are equal exactly when their starts of one length are, and their ends.
key_eq-append :
    (bs cs xs ys : Bytes)
    → length bs ≡ length cs
    → key_eq (bs ++ xs) (cs ++ ys) ≡ (if key_eq bs cs then key_eq xs ys else false)
key_eq-append bs cs xs ys l = ground (arith, append_injective bs cs xs ys l)

read_full-enough :
    (n : ℕ) (xs : Bytes) → n ≤ length xs → read_full n xs ≡ some (take n xs, drop n xs)
read_full-enough n xs h = ground arith

-- What is asked for is the next block and the rest.
take-block :
    (left : ℕ) (xs : Bytes)
    → let n = min left buffer_size in take left xs ≡ take n xs ++ take (left - n) (drop n xs)
take-block left xs =
    ap (λ n. take n xs) whole ∙ take_add (min left buffer_size) (left - min left buffer_size) xs
  where
    whole : left ≡ min left buffer_size + (left - min left buffer_size)
    whole = omega arith

key_eq-take_block :
    (left : ℕ) (xs ys : Bytes)
    → left ≤ length xs
    → left ≤ length ys
    → let n = min left buffer_size in
      key_eq (take left xs) (take left ys) ≡ (
        if key_eq (take n xs) (take n ys)
        then key_eq (take (left - n) (drop n xs)) (take (left - n) (drop n ys))
        else false)
key_eq-take_block left xs ys p q =
    let n = min left buffer_size in
    rw (take-block left xs, take-block left ys)
      (key_eq-append (take n xs) (take n ys) (take (left - n) (drop n xs))
        (take (left - n) (drop n ys)) (omega (arith, p, q, length-take n xs, length-take n ys)))

-- With as many bytes on either side as are asked for, the loop ends well, and it finds them alike
-- exactly when they are.
pub compare_from-take :
    (fuel left : ℕ) (xs ys : Bytes)
    → left ≤ fuel
    → left ≤ length xs
    → left ≤ length ys
    → compare_from fuel left xs ys
      ≡ (if key_eq (take left xs) (take left ys) then alike else differ)
unfolding compare_from
compare_from-take zero zero xs ys f p q = rw key_eq_nil refl
compare_from-take zero (suc left) xs ys f p q = absurd (omega (arith, f))
compare_from-take (suc fuel) zero xs ys f p q = rw key_eq_nil refl
compare_from-take (suc fuel) (suc before) xs ys f p q =
    let n = min (suc before) buffer_size in
    let later =
      compare_from-take fuel (suc before - n) (drop n xs) (drop n ys) (omega (arith, f))
        (omega (arith, p, length-drop n xs)) (omega (arith, q, length-drop n ys)) in
    rw
      (
        not_done before,
        read_full-enough n xs (omega (arith, p)),
        read_full-enough n ys (omega (arith, q)),
        key_eq-take_block (suc before) xs ys p q,
      )
      (elim (Bool-cases (key_eq (take n xs) (take n ys))) [
        | inl e ↦ rw e later
        | inr e ↦ rw e refl
      ])

-- The law of a checksum that is updated by one block after another.
abbrev pub UpdatesByBlocks : Crc → Type 0
UpdatesByBlocks crc =
    ((sum : ℕ) → crc.update sum [] ≡ sum)
    × ((sum : ℕ) (xs ys : Bytes) → crc.update sum (xs ++ ys) ≡ crc.update (crc.update sum xs) ys)

-- With as many bytes as are asked for, the loop ends with the checksum of them.
pub chksum_from-take :
    (crc : Crc) (fuel left sum : ℕ) (xs : Bytes)
    → UpdatesByBlocks crc
    → left ≤ fuel
    → left ≤ length xs
    → chksum_from crc fuel left sum xs ≡ some (crc.update sum (take left xs))
unfolding chksum_from
chksum_from-take crc zero zero sum xs law f p = ap some (sym (law.0 sum))
chksum_from-take crc zero (suc left) sum xs law f p = absurd (omega (arith, f))
chksum_from-take crc (suc fuel) zero sum xs law f p = ap some (sym (law.0 sum))
chksum_from-take crc (suc fuel) (suc before) sum xs law f p =
    let n = min (suc before) buffer_size in
    rw (not_done before, read_full-enough n xs (omega (arith, p)))
      (chksum_from-take crc fuel (suc before - n) (crc.update sum (take n xs)) (drop n xs) law
          (omega (arith, f)) (omega (arith, p, length-drop n xs))
        ∙ ap some (
            sym (
              ap (crc.update sum) (take-block (suc before) xs)
              ∙ law.1 sum (take n xs) (take (suc before - n) (drop n xs)))))

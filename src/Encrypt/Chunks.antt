-- ===== src/Encrypt/Chunks.antt =====
-- A stored object as its chunks, with the plaintext of each.
use mathlib.Core.Path.{ap₂}
use mathlib.Core.List.{append-nil}
use native.Mathlib.Nat.{zero-mul}
use my_sync.Common.{
  ℕ, zero, suc, ◌+◌, ◌*◌, ◌≤◌, ◌<◌, ◌≡◌, refl, ap, ◌∙◌, List, [], ◌∷◌, ◌++◌, length, take, drop,
  arith,
}
use my_sync.Contents.{Bytes}
use my_sync.Contents.Blocks.{take_add, drop_add}
use my_sync.Encrypt.{Codec, enc_chunk_size}
use my_sync.Contents.Pieces.{take_past}
use my_sync.Encrypt.Header.{Sealed}

abbrev pub Chunks : Type 0
Chunks = List (Bytes × Bytes)

abbrev pub join : (Bytes × Bytes → Bytes) → Chunks → Bytes
join f [] = []
join f (x ∷ cs) = f x ++ join f cs

abbrev pub plain_of : Chunks → Bytes
plain_of cs = join (λ x. x.0) cs

abbrev pub stored_of : Chunks → Bytes
stored_of cs = join (λ x. x.1) cs

-- All chunks are full but the last, which is not empty.
abbrev pub Sizes : ℕ → ℕ → Chunks → Type 0
Sizes c n [] = (1 ≤ n) × (n ≤ c)
Sizes c n (next ∷ cs) = n ≡ c

abbrev pub Shape : Codec → Chunks → Type 0
Shape e [] = Unit
Shape e ((p, chunk) ∷ cs) = Sealed e p chunk × Sizes e.plain_chunk (length p) cs × Shape e cs

take-append_exact : (n : ℕ) (xs ys : Bytes) → length xs ≡ n → take n (xs ++ ys) ≡ xs
take-append_exact zero [] ys h = refl
take-append_exact zero (x ∷ xs) ys h = absurd (omega (arith, h))
take-append_exact (suc n) [] ys h = absurd (omega (arith, h))
take-append_exact (suc n) (x ∷ xs) ys h = ap (◌∷◌ x) (take-append_exact n xs ys (omega (arith, h)))

drop-append_exact : (n : ℕ) (xs ys : Bytes) → length xs ≡ n → drop n (xs ++ ys) ≡ ys
drop-append_exact zero [] ys h = refl
drop-append_exact zero (x ∷ xs) ys h = absurd (omega (arith, h))
drop-append_exact (suc n) [] ys h = absurd (omega (arith, h))
drop-append_exact (suc n) (x ∷ xs) ys h = drop-append_exact n xs ys (omega (arith, h))

pub drop_over : (n : ℕ) (xs : Bytes) → length xs ≤ n → drop n xs ≡ []
drop_over zero [] h = refl
drop_over (suc n) [] h = refl
drop_over zero (x ∷ xs) h = absurd (omega (arith, h))
drop_over (suc n) (x ∷ xs) h = drop_over n xs (omega (arith, h))

-- All pieces have the length `n`, and the last no more.
abbrev pub Fits : (Bytes × Bytes → Bytes) → ℕ → Chunks → Type 0
Fits f n [] = Unit
Fits f n (x ∷ []) = length (f x) ≤ n
Fits f n (x ∷ y ∷ cs) = (length (f x) ≡ n) × Fits f n (y ∷ cs)

module _ (f : Bytes × Bytes → Bytes) (n : ℕ) where
  Fits-rest : (x : Bytes × Bytes) (cs : Chunks) → Fits f n (x ∷ cs) → Fits f n cs
  Fits-rest x [] h = tt
  Fits-rest x (y ∷ cs) h = h.1

  pub take-first :
      (x : Bytes × Bytes) (cs : Chunks) → Fits f n (x ∷ cs) → take n (join f (x ∷ cs)) ≡ f x
  take-first x [] h = ap (take n) (append-nil (f x)) ∙ take_past n (f x) h
  take-first x (y ∷ cs) h = take-append_exact n (f x) (join f (y ∷ cs)) h.0

  pub drop-first :
      (x : Bytes × Bytes) (cs : Chunks) → Fits f n (x ∷ cs) → drop n (join f (x ∷ cs)) ≡ join f cs
  drop-first x [] h = ap (drop n) (append-nil (f x)) ∙ drop_over n (f x) h
  drop-first x (y ∷ cs) h = drop-append_exact n (f x) (join f (y ∷ cs)) h.0

  one_more : (k : ℕ) → suc k * n ≡ n + k * n
  one_more k = omega arith

  nothing_left : (m : ℕ) → drop m [] ≡ join f []
  nothing_left m = drop_over m [] (omega arith)

  pub drop-join :
      (k : ℕ) (cs : Chunks) → Fits f n cs → drop (k * n) (join f cs) ≡ join f (drop k cs)
  drop-join zero cs h = rw (zero-mul n) refl
  drop-join (suc k) [] h = nothing_left (suc k * n)
  drop-join (suc k) (x ∷ cs) h =
      ap (λ m. drop m (join f (x ∷ cs))) (one_more k)
      ∙ drop_add n (k * n) (join f (x ∷ cs))
      ∙ ap (drop (k * n)) (drop-first x cs h)
      ∙ drop-join k cs (Fits-rest x cs h)

  pub take-join :
      (k : ℕ) (cs : Chunks) → Fits f n cs → take (k * n) (join f cs) ≡ join f (take k cs)
  take-join zero cs h = rw (zero-mul n) refl
  take-join (suc k) [] h = take_past (suc k * n) [] (omega arith)
  take-join (suc k) (x ∷ cs) h =
      ap (λ m. take m (join f (x ∷ cs))) (one_more k)
      ∙ take_add n (k * n) (join f (x ∷ cs))
      ∙ ap₂ ◌++◌ (take-first x cs h)
          (ap (take (k * n)) (drop-first x cs h) ∙ take-join k cs (Fits-rest x cs h))

Shape-rest : (e : Codec) (x : Bytes × Bytes) (cs : Chunks) → Shape e (x ∷ cs) → Shape e cs
Shape-rest e (p, chunk) cs h = h.2

pub Shape-drop : (e : Codec) (k : ℕ) (cs : Chunks) → Shape e cs → Shape e (drop k cs)
Shape-drop e zero cs h = h
Shape-drop e (suc k) [] h = tt
Shape-drop e (suc k) (x ∷ cs) h = Shape-drop e k cs (Shape-rest e x cs h)

Sizes-take : (c n k : ℕ) (cs : Chunks) → 0 < c → Sizes c n cs → Sizes c n (take k cs)
Sizes-take c n zero [] pos h = h
Sizes-take c n zero (x ∷ cs) pos h = omega (arith, h, pos)
Sizes-take c n (suc k) [] pos h = h
Sizes-take c n (suc k) (x ∷ cs) pos h = h

pub Shape-take :
    (e : Codec) (k : ℕ) (cs : Chunks) → 0 < e.plain_chunk → Shape e cs → Shape e (take k cs)
Shape-take e zero cs pos h = tt
Shape-take e (suc k) [] pos h = tt
Shape-take e (suc k) ((p, chunk) ∷ cs) pos h =
    (h.0, Sizes-take e.plain_chunk (length p) k cs pos h.1, Shape-take e k cs pos h.2)

pub Fits-plain : (e : Codec) (cs : Chunks) → Shape e cs → Fits (λ x. x.0) e.plain_chunk cs
Fits-plain e [] h = tt
Fits-plain e ((p, chunk) ∷ []) h = h.1.1
Fits-plain e ((p, chunk) ∷ x ∷ cs) h = (h.1, Fits-plain e (x ∷ cs) h.2)

pub Fits-stored : (e : Codec) (cs : Chunks) → Shape e cs → Fits (λ x. x.1) (enc_chunk_size e) cs
Fits-stored e [] h = tt
Fits-stored e ((p, chunk) ∷ []) h = omega (arith, h.0.0, h.1.1)
Fits-stored e ((p, chunk) ∷ x ∷ cs) h = (omega (arith, h.0.0, h.1), Fits-stored e (x ∷ cs) h.2)

-- ===== src/Copy/Sums.antt =====
-- The checksums of uploaded parts, and how they are combined.
use my_sync.Common.{
  ℕ, suc, ◌+◌, ◌-◌, ◌≤◌, ◌≡◌, refl, sym, ap, subst, ◌∙◌, true, some, List, [], ◌∷◌, length, take,
  drop, arith, Bool-cases, Option-cases, inl, inr, All, ◌⊎◌, leb, leb→le,
}
use my_sync.Completion.{Failure, try_calls}
use my_sync.Upload.{Part}
use my_sync.Parts.{Range}
use my_sync.Parts.Ranges.{Tiles}
use my_sync.Contents.{Bytes, Crc}
use my_sync.Contents.Objects.{Combines, combine-next}
use my_sync.Contents.Sameness.{Tiles-same}
use my_sync.Copy.{
  Result, ok, err, error_of, retry, wrapped, Copied, Attempt, attempt_part, upload_part,
  upload_data, all_copied,
}
use my_sync.Copy.Multiple.{combine_copied}

abbrev pub slice : Bytes → ℕ → ℕ → Bytes
slice xs off len = take len (drop off xs)

-- What the source delivers from `off` on is what the object has there, as far as it is read.
abbrev pub ReadsSource : Bytes → ℕ → ℕ → Attempt → Type 0
ReadsSource xs off size a =
    (body : Bytes) → a.body ≡ ok body → size ≤ length body → take size body ≡ slice xs off size

pub ok_injective {ℓ} : {A : Type ℓ} (a b : A) → ok a ≡ ok b → a ≡ b
ok_injective a b e = cc e

pub some_injective {ℓ} : {A : Type ℓ} (a b : A) → some a ≡ some b → a ≡ b
some_injective a b e = cc e

pub retry-ok {ℓ} :
    {A : Type ℓ} (n : ℕ) (f : ℕ → Result A) (a : A) → retry n f ≡ ok a → (i : ℕ) × (f i ≡ ok a)
unfolding retry
retry-ok n f a e = ((try_calls n (λ i. error_of (f i))).0 - 1, e)

pub wrapped-ok {ℓ} : {A : Type ℓ} (r : Result A) (a : A) → wrapped r ≡ ok a → r ≡ ok a
wrapped-ok (ok b) a e = e
wrapped-ok (err x) a e = cc e

pub Result-cases {ℓ} :
    {A : Type ℓ} (r : Result A) → ((a : A) × (r ≡ ok a)) ⊎ ((e : Failure) × (r ≡ err e))
Result-cases (ok a) = inl (a, refl)
Result-cases (err e) = inr (e, refl)

upload_data-sum :
    (crc : Crc) (block : Bytes) (r : Result Part) (c : Copied)
    → upload_data crc true block r ≡ ok c
    → c.sum ≡ crc.update 0 block
upload_data-sum crc block (ok part) c e = sym (ap (λ d. d.sum) (ok_injective _ c e))
upload_data-sum crc block (err x) c e = cc e

attempt_part-sum :
    (crc : Crc) (xs : Bytes) (off size : ℕ) (a : Attempt) (c : Copied)
    → ReadsSource xs off size a
    → attempt_part crc true size a ≡ ok c
    → c.sum ≡ crc.update 0 (slice xs off size)
unfolding attempt_part
attempt_part-sum crc xs off size a c reads e = elim (Result-cases a.body) [
  | inr (x, wrong) ↦ cc (rw (attempt_part, wrong) at e)
  | inl (body, got) ↦ elim (Bool-cases (leb size (length body))) [
    | inr short ↦ cc (rw (attempt_part, got, short) at e)
    | inl long ↦
        upload_data-sum crc (take size body) (a.upload (take size body)) c
          (rw (attempt_part, got, long) at e)
        ∙ ap (crc.update 0) (reads body got (leb→le size (length body) long))
  ]
]

pub upload_part-sum :
    (crc : Crc) (xs : Bytes) (off size : ℕ) (attempts : ℕ → Attempt) (c : Copied)
    → ((i : ℕ) → ReadsSource xs off size (attempts i))
    → upload_part crc true size attempts ≡ ok c
    → c.sum ≡ crc.update 0 (slice xs off size)
unfolding upload_part
upload_part-sum crc xs off size attempts c reads e =
    let (i, last) =
      retry-ok 3 (λ i. attempt_part crc true size (attempts i)) c (wrapped-ok _ c e) in
    attempt_part-sum crc xs off size (attempts i) c (reads i) last

abbrev pub ranges_of : List (Range × Copied) → List Range
ranges_of [] = []
ranges_of ((r, c) ∷ cs) = r ∷ ranges_of cs

-- A part whose checksum is that of the bytes in its range, if the object has them.
abbrev pub RightSum : Crc → Bytes → Range × Copied → Type 0
RightSum crc xs (r, c) = r.off + r.len ≤ length xs → c.sum ≡ crc.update 0 (slice xs r.off r.len)

pub all_copied-All :
    (f : Range → Result Copied) (P : Range × Copied → Type 0)
    → ((r : Range) (c : Copied) → f r ≡ ok c → P (r, c))
    → (rs : List Range) (cs : List (Range × Copied)) → all_copied f rs ≡ some cs
    → (ranges_of cs ≡ rs) × All P cs
unfolding all_copied
all_copied-All f P h [] [] e = (refl, tt)
all_copied-All f P h [] (d ∷ cs) e = cc e
all_copied-All f P h (r ∷ rs) cs e = elim (Result-cases (f r)) [
  | inr (x, wrong) ↦ cc (rw (all_copied, wrong) at e)
  | inl (c, done) ↦ elim (Option-cases (all_copied f rs)) [
    | inl none_left ↦ cc (rw (all_copied, done, none_left) at e)
    | inr (ds, rest) ↦
        let (ranges, all) = all_copied-All f P h rs ds rest in
        let same = some_injective ((r, c) ∷ ds) cs (rw (all_copied, done, rest) at e) in
        (sym (ap ranges_of same) ∙ ap (◌∷◌ r) ranges, subst (All P) same (h r c done, all))
  ]
]

-- The checksums of parts that tile the bytes are combined into that of the bytes.
pub combine_copied-Tiles :
    (crc : Crc) (part_size i off : ℕ) (cs : List (Range × Copied)) (end : ℕ) (xs : Bytes)
    → Combines crc
    → Tiles part_size i off (ranges_of cs) end
    → end ≤ length xs
    → All (RightSum crc xs) cs
    → combine_copied crc (crc.update 0 (take off xs)) cs ≡ crc.update 0 (take end xs)
unfolding combine_copied
combine_copied-Tiles crc ps i off [] end xs combines t p h = ap (λ n. crc.update 0 (take n xs)) t
combine_copied-Tiles crc ps i off ((r, c) ∷ cs) end xs combines (_, start, _, _, later) p h =
    let (_, le, _) = Tiles-same ps (suc i) (off + r.len) (ranges_of cs) end xs xs later p p in
    rw
      (
        h.0 (omega (arith, start, le, p)),
        start,
        combine-next crc off r.len xs combines (omega (arith, le, p)),
      )
      (combine_copied-Tiles crc ps (suc i) (off + r.len) cs end xs combines later p h.1)

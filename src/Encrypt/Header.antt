-- ===== src/Encrypt/Header.antt =====
-- A chunk is read back as it was written.
use my_sync.Common.{
  ℕ, zero, suc, ◌+◌, ◌-◌, ◌≤◌, ◌<◌, ◌^◌, ◌≡◌, refl, ap, subst, ◌∙◌, some, [], ◌∷◌, ◌++◌, length,
  take, ltb, arith, length-append, Bool-cases, Option-cases, inl, inr,
}
use my_sync.Contents.{Bytes}
use my_sync.Encrypt.{Codec, put_u32, get_u32, zeros, fitted, seal, unseal, chunk_header_size}

-- What the cipher promises: what is encrypted is decrypted again. The length of a ciphertext
-- fits into its header.
pub record Sound (e : Codec) : Type 0 where
  pub some_size : 0 < e.plain_chunk
  pub short : e.plain_chunk + e.overhead < 2 ^ 32
  pub inverse : (i : ℕ) (p ct : Bytes) → e.encrypt i p ≡ some ct → e.decrypt ct ≡ some p

get_u32-put_u32 : (n : ℕ) → n < 2 ^ 32 → get_u32 (put_u32 n) ≡ n
unfolding put_u32 get_u32
get_u32-put_u32 n h = omega arith

length-zeros : (n : ℕ) → length (zeros n) ≡ n
unfolding zeros
length-zeros zero = refl
length-zeros (suc n) = ap suc (length-zeros n)

take-length_append : (xs ys : Bytes) → take (length xs) (xs ++ ys) ≡ xs
take-length_append [] ys = refl
take-length_append (x ∷ xs) ys = ap (◌∷◌ x) (take-length_append xs ys)

-- A written chunk of `p`.
abbrev pub Sealed : Codec → Bytes → Bytes → Type 0
Sealed e p chunk =
    (length chunk ≡ length p + chunk_header_size + e.overhead) × (unseal e chunk ≡ some p)

some_injective : (s t : Bytes) → some s ≡ some t → s ≡ t
some_injective s t h = cc

unseal-header :
    (e : Codec) (header body : Bytes)
    → length header ≡ 4
    → get_u32 header ≤ length body
    → unseal e (header ++ body) ≡ e.decrypt (take (get_u32 header) body)
unfolding unseal get_u32
unseal-header e (a ∷ b ∷ c ∷ d ∷ []) body four enough = ground (arith, enough)
unseal-header e [] body four enough = absurd (omega (arith, four))
unseal-header e (a ∷ []) body four enough = absurd (omega (arith, four))
unseal-header e (a ∷ b ∷ []) body four enough = absurd (omega (arith, four))
unseal-header e (a ∷ b ∷ c ∷ []) body four enough = absurd (omega (arith, four))
unseal-header e (a ∷ b ∷ c ∷ d ∷ x ∷ xs) body four enough = absurd (omega (arith, four))

-- A ciphertext behind its header, with zeros.
padded-Sealed :
    (e : Codec) (p ct : Bytes)
    → length p + e.overhead < 2 ^ 32
    → e.decrypt ct ≡ some p
    → length ct ≤ length p + e.overhead
    → Sealed e p (put_u32 (length ct) ++ (ct ++ zeros (length p + e.overhead - length ct)))
unfolding put_u32 unseal
padded-Sealed e p ct short back fits = (omega (arith, long_enough), opens)
  where
    pad : Bytes
    pad = zeros (length p + e.overhead - length ct)

    long_enough : length (ct ++ pad) ≡ length p + e.overhead
    long_enough =
        omega
          (arith, length-append {0} ct pad, length-zeros (length p + e.overhead - length ct), fits)

    read : get_u32 (put_u32 (length ct)) ≡ length ct
    read = get_u32-put_u32 (length ct) (omega (arith, short, fits))

    opens : unseal e (put_u32 (length ct) ++ (ct ++ pad)) ≡ some p
    opens =
        unseal-header e (put_u32 (length ct)) (ct ++ pad) refl
          (omega (arith, read, long_enough, fits))
        ∙ ap (λ n. e.decrypt (take n (ct ++ pad))) read
        ∙ ap e.decrypt (take-length_append ct pad)
        ∙ back

fitted-Sealed :
    (e : Codec) (p ct chunk : Bytes)
    → length p + e.overhead < 2 ^ 32
    → e.decrypt ct ≡ some p
    → fitted (length p + e.overhead) ct ≡ some chunk
    → Sealed e p chunk
unfolding fitted
fitted-Sealed e p ct chunk short back h =
    elim (Bool-cases (ltb (length p + e.overhead) (length ct))) [
      | inl long ↦ cc (rw (fitted, long) at h)
      | inr fits ↦
          subst (Sealed e p) (some_injective _ chunk (rw (fitted, fits) at h))
            (padded-Sealed e p ct short back (ground (arith, fits)))
    ]

pub seal-Sealed :
    (e : Codec) (i : ℕ) (p chunk : Bytes)
    → Sound e
    → length p ≤ e.plain_chunk
    → seal e i p ≡ some chunk
    → Sealed e p chunk
unfolding seal
seal-Sealed e i p chunk sound fits h = elim (Option-cases (e.encrypt i p)) [
  | inl bad ↦ cc (rw (seal, bad) at h)
  | inr (ct, good) ↦
      fitted-Sealed e p ct chunk (omega (arith, fits, sound.short)) (sound.inverse i p ct good)
        (rw (seal, good) at h)
]

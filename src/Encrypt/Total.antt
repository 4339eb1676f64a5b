-- ===== src/Encrypt/Total.antt =====
-- `Put` stores every object that the cipher encrypts.
use my_sync.Common.{
  ℕ, zero, suc, ◌+◌, ◌-◌, ◌≤◌, ◌<◌, ◌≡◌, refl, some, [], ◌∷◌, ◌++◌, length, take, drop, arith,
}
use my_sync.Contents.{Bytes}
use my_sync.Contents.Blocks.{length-drop}
use my_sync.Encrypt.{Codec, encrypt_from, seal, fitted, put_u32, zeros}

-- The cipher encrypts each chunk within its overhead.
abbrev pub Encrypts : Codec → Type 0
Encrypts e =
    (i : ℕ) (p : Bytes)
    → (ct : Bytes) × (e.encrypt i p ≡ some ct) × (length ct ≤ length p + e.overhead)

sealed_some :
    (e : Codec) → Encrypts e → (i : ℕ) (p : Bytes) → (chunk : Bytes) × (seal e i p ≡ some chunk)
unfolding seal fitted
sealed_some e works i p =
    let (ct, made, fits) = works i p in
    (
      put_u32 (length ct) ++ (ct ++ zeros (length p + e.overhead - length ct)),
      rw (seal, made) (ground (arith, fits)),
    )

-- As many rounds as there are bytes are enough.
pub encrypt_from-ends :
    (e : Codec) (fuel i : ℕ) (plain : Bytes)
    → 0 < e.plain_chunk
    → Encrypts e
    → length plain ≤ fuel
    → (stored : Bytes) × (encrypt_from fuel e i plain ≡ some stored)
unfolding encrypt_from
encrypt_from-ends e zero i [] pos works enough = ([], refl)
encrypt_from-ends e (suc fuel) i [] pos works enough = ([], refl)
encrypt_from-ends e zero i (x ∷ xs) pos works enough = absurd (omega (arith, enough))
encrypt_from-ends e (suc fuel) i (x ∷ xs) pos works enough =
    let (chunk, sealed) = sealed_some e works i (take e.plain_chunk (x ∷ xs)) in
    let (rest, done) =
      encrypt_from-ends e fuel (suc i) (drop e.plain_chunk (x ∷ xs)) pos works
        (omega (arith, length-drop {0} e.plain_chunk (x ∷ xs), enough, pos)) in
    (chunk ++ rest, rw (sealed, done) refl)

-- ===== src/Encrypt/Written.antt =====
-- What `Put` stores, and what reading it back gives.
use mathlib.Core.Path.{ap₂}
use mathlib.Core.List.{append-nil}
use my_sync.Common.{
  ℕ, zero, suc, min, ◌≤◌, ◌<◌, ◌≡◌, refl, sym, ap, ◌∙◌, Option, none, some, [], ◌∷◌, ◌++◌, length,
  take, drop, arith, length-append, length-take, take-append-drop, leb, by_test,
}
use my_sync.Contents.{Bytes}
use my_sync.Contents.Blocks.{length-drop}
use my_sync.Encrypt.{
  Codec, enc_chunk_size, seal, encrypt_from, and_then, unseal, decrypt_from, opened, after_skip,
}
use my_sync.Encrypt.Header.{Sound, seal-Sealed}
use my_sync.Encrypt.Chunks.{
  Chunks, Shape, Sizes, plain_of, stored_of, take-first, drop-first, drop_over, Fits-stored,
}

-- The chunks of a written object.
pub record Written (e : Codec) (plain stored : Bytes) : Type 0 where
  pub chunks : Chunks
  pub shaped : Shape e chunks
  pub plain_is : plain_of chunks ≡ plain
  pub stored_is : stored_of chunks ≡ stored

some_injective : (s t : Bytes) → some s ≡ some t → s ≡ t
some_injective s t h = cc

-- A chunk before a written rest.
before_rest :
    (e : Codec) (n : ℕ) (cs : Chunks)
    → Shape e cs
    → 1 ≤ n
    → n ≤ e.plain_chunk
    → (1 ≤ length (plain_of cs) → n ≡ e.plain_chunk)
    → Sizes e.plain_chunk n cs
before_rest e n [] h pos fits full = (pos, fits)
before_rest e n ((p, chunk) ∷ cs) h pos fits full =
    full (omega (arith, length-append {0} p (plain_of cs), one_at_least cs h.1))
  where
    one_at_least : (cs : Chunks) → Sizes e.plain_chunk (length p) cs → 1 ≤ length p
    one_at_least [] h = h.0
    one_at_least (x ∷ cs) h = omega (arith, h, pos, fits)

pub encrypt_from-Written :
    (e : Codec) (sound : Sound e) (fuel i : ℕ) (plain stored : Bytes)
    → encrypt_from fuel e i plain ≡ some stored
    → Written e plain stored
unfolding encrypt_from
encrypt_from-Written e sound zero i [] stored h = record {
  chunks = [];
  shaped = tt;
  plain_is = refl;
  stored_is = some_injective [] stored h;
}
encrypt_from-Written e sound (suc fuel) i [] stored h = record {
  chunks = [];
  shaped = tt;
  plain_is = refl;
  stored_is = some_injective [] stored h;
}
encrypt_from-Written e sound zero i (x ∷ xs) stored h = cc
encrypt_from-Written e sound (suc fuel) i (x ∷ xs) stored h =
    both (seal e i first) (encrypt_from fuel e (suc i) rest) refl
      (λ ys. encrypt_from-Written e sound fuel (suc i) rest ys) h
  where
    first : Bytes
    first = take e.plain_chunk (x ∷ xs)

    rest : Bytes
    rest = drop e.plain_chunk (x ∷ xs)

    size : length first ≡ min e.plain_chunk (suc (length xs))
    size = length-take e.plain_chunk (x ∷ xs)

    both :
        (chunk later : Option Bytes)
        → seal e i first ≡ chunk
        → ((ys : Bytes) → later ≡ some ys → Written e rest ys)
        → and_then chunk later ≡ some stored
        → Written e (x ∷ xs) stored
    both none later sealed next h = cc
    both (some chunk) none sealed next h = cc
    both (some chunk) (some ys) sealed next h =
        let w : Written e rest ys = next ys refl in
        record {
          chunks = (first, chunk) ∷ w.chunks;
          shaped = (
            seal-Sealed e i first chunk sound (omega (arith, size)) sealed,
            before_rest e (length first) w.chunks w.shaped (omega (arith, size, sound.some_size))
                (omega (arith, size))
                (λ more. omega (
                  arith,
                  size,
                  more,
                  ap {A = Bytes} length w.plain_is,
                  length-drop {0} e.plain_chunk (x ∷ xs),
                )),
            w.shaped,
          );
          plain_is = ap (λ ys. first ++ ys) w.plain_is ∙ take-append-drop e.plain_chunk (x ∷ xs);
          stored_is = ap (λ ys. chunk ++ ys) w.stored_is ∙ some_injective (chunk ++ ys) stored h;
        }

decrypt_first :
    (fuel : ℕ) (e : Codec) (skip : ℕ) (bytes : Bytes)
    → 1 ≤ length bytes
    → decrypt_from (suc fuel) e skip bytes
      ≡ opened skip
          (unseal e (take (enc_chunk_size e) bytes))
          (decrypt_from fuel e 0 (drop (enc_chunk_size e) bytes))
unfolding decrypt_from
decrypt_first fuel e skip [] h = absurd (omega (arith, h))
decrypt_first fuel e skip (x ∷ xs) h = refl

decrypt_nothing : (fuel : ℕ) (e : Codec) (skip : ℕ) → decrypt_from fuel e skip [] ≡ some []
unfolding decrypt_from
decrypt_nothing zero e skip = refl
decrypt_nothing (suc fuel) e skip = refl

drop_none : (n : ℕ) → drop {A = ℕ} n [] ≡ []
drop_none zero = refl
drop_none (suc n) = refl

drop-append_within : (n : ℕ) (xs ys : Bytes) → n ≤ length xs → drop n (xs ++ ys) ≡ drop n xs ++ ys
drop-append_within zero xs ys h = refl
drop-append_within (suc n) [] ys h = absurd (omega (arith, h))
drop-append_within (suc n) (x ∷ xs) ys h = drop-append_within n xs ys (omega (arith, h))

-- The plaintext of a chunk that is not the last is skipped in part only.
skipped :
    (c skip : ℕ) (p : Bytes) (cs : Chunks)
    → skip < c
    → Sizes c (length p) cs
    → after_skip skip p (some (plain_of cs)) ≡ some (drop skip (p ++ plain_of cs))
unfolding after_skip
skipped c zero p cs h sizes = refl
skipped c (suc skip) p cs h sizes =
    by_test (λ r. r ≡ some (drop (suc skip) (p ++ plain_of cs))) (leb (length p) (suc skip))
      (λ all. past cs sizes (ground (arith, all)))
      (λ part. ap some (sym (drop-append_within (suc skip) p (plain_of cs) (ground (arith, part)))))
  where
    past :
        (cs : Chunks)
        → Sizes c (length p) cs
        → length p ≤ suc skip
        → some [] ≡ some (drop (suc skip) (p ++ plain_of cs))
    past [] sizes all =
        ap some (sym (ap (drop (suc skip)) (append-nil p) ∙ drop_over (suc skip) p all))
    past (x ∷ cs) sizes all = absurd (omega (arith, sizes, all, h))

opened_plain :
    (skip : ℕ) (p : Bytes) (rest : Option Bytes)
    → opened skip (some p) rest ≡ after_skip skip p rest
unfolding opened
opened_plain skip p rest = refl

-- Reading chunks back gives their plaintext behind the bytes to skip.
pub decrypt_from-chunks :
    (fuel : ℕ) (e : Codec) (skip : ℕ) (cs : Chunks)
    → length cs ≤ fuel
    → skip < e.plain_chunk
    → Shape e cs
    → decrypt_from fuel e skip (stored_of cs) ≡ some (drop skip (plain_of cs))
decrypt_from-chunks fuel e skip [] enough h shaped =
    decrypt_nothing fuel e skip ∙ ap some (sym (drop_none skip))
decrypt_from-chunks zero e skip (x ∷ cs) enough h shaped = absurd (omega (arith, enough))
decrypt_from-chunks (suc fuel) e skip ((p, chunk) ∷ cs) enough h shaped =
    decrypt_first fuel e skip (chunk ++ stored_of cs) nonempty
    ∙ ap₂ (λ a b. opened skip (unseal e a) (decrypt_from fuel e 0 b))
        (take-first (λ x. x.1) (enc_chunk_size e) (p, chunk) cs
          (Fits-stored e ((p, chunk) ∷ cs) shaped))
        (drop-first (λ x. x.1) (enc_chunk_size e) (p, chunk) cs
          (Fits-stored e ((p, chunk) ∷ cs) shaped))
    ∙ ap₂ (opened skip) shaped.0.1
        (decrypt_from-chunks fuel e 0 cs (omega (arith, enough)) (omega (arith, h)) shaped.2)
    ∙ opened_plain skip p (some (plain_of cs))
    ∙ skipped e.plain_chunk skip p cs h shaped.1
  where
    nonempty : 1 ≤ length (chunk ++ stored_of cs)
    nonempty = omega (arith, shaped.0.0, length-append {0} chunk (stored_of cs))

-- ===== src/Encrypt/RoundTrip.antt =====
-- A stored object is read back, whole or in part.
use native.Mathlib.Nat.{div-mul-le_self, lt-div-mul-add, add-mul, mul-le-mul_right}
use my_sync.Common.{
  ℕ, zero, suc, min, ◌+◌, ◌-◌, ◌*◌, ◌/◌, ◌≤◌, ◌<◌, ◌≡◌, sym, ap, ◌∙◌, dec_lt, Option, none, some,
  [], ◌∷◌, length, take, drop, arith, length-append,
}
use my_sync.Contents.{Bytes}
use my_sync.Contents.Blocks.{drop_add}
use my_sync.Contents.Pieces.{bytes_in_block}
use my_sync.Encrypt.{Codec, enc_chunk_size, put_encrypted, take_of, decrypt_from, get_encrypted}
use my_sync.Encrypt.Header.{Sound}
use my_sync.Encrypt.Total.{Encrypts, encrypt_from-ends}
use my_sync.Encrypt.Chunks.{
  Chunks, Shape, plain_of, stored_of, drop-join, take-join, Shape-drop, Shape-take, Fits-plain,
  Fits-stored,
}
use my_sync.Encrypt.Written.{Written, encrypt_from-Written, decrypt_from-chunks}

-- The part of the plaintext that is asked for.
abbrev pub slice : Bytes → ℕ → Option ℕ → Bytes
slice plain off none = drop off plain
slice plain off (some limit) = take limit (drop off plain)

-- A limit is positive; the code takes any other for none.
abbrev pub GoodLimit : Option ℕ → Type 0
GoodLimit none = Unit
GoodLimit (some limit) = 1 ≤ limit

length-drop_le : (k : ℕ) (cs : Chunks) → length (drop k cs) ≤ length cs
length-drop_le zero cs = omega arith
length-drop_le (suc k) [] = omega arith
length-drop_le (suc k) (x ∷ cs) = omega (arith, length-drop_le k cs)

length-take_le : (k : ℕ) (cs : Chunks) → length (take k cs) ≤ length cs
length-take_le zero cs = omega arith
length-take_le (suc k) [] = omega arith
length-take_le (suc k) (x ∷ cs) = omega (arith, length-take_le k cs)

fewer_chunks : (e : Codec) (cs : Chunks) → Shape e cs → length cs ≤ length (stored_of cs)
fewer_chunks e [] h = omega arith
fewer_chunks e ((p, chunk) ∷ cs) h =
    omega (arith, fewer_chunks e cs h.2, length-append {0} chunk (stored_of cs), h.0.0)

-- The chunks from the one of the offset to the one of the last byte hold all that is asked for.
enough_chunks :
    (c off limit : ℕ)
    → 0 < c
    → 1 ≤ limit
    → let start = off / c in
      let end = (off + limit - 1) / c in limit ≤ (end - start + 1) * c - (off - start * c)
enough_chunks c off limit pos some_limit = omega (
  arith,
  counted,
  div-mul-le_self off c,
  lt-div-mul-add {a = off + limit - 1} {b = c} pos,
  add-mul spare start c,
  add-mul (spare + start) 1 c,
  add-mul spare 1 c,
)
  where
    start : ℕ
    start = off / c

    spare : ℕ
    spare = (off + limit - 1) / c - start

    in_order : off / c ≤ (off + limit - 1) / c
    in_order = elim (dec_lt ((off + limit - 1) / c) (off / c)) [
      | no h ↦ omega (arith, h)
      | yes h ↦ absurd (
          omega (
            arith,
            mul-le-mul_right {m = suc ((off + limit - 1) / c)} {n = off / c} c h,
            div-mul-le_self off c,
            lt-div-mul-add {a = off + limit - 1} {b = c} pos,
            some_limit,
          ))
    ]

    counted : (spare + start) * c ≡ (off + limit - 1) / c * c
    counted = ap (λ n. n * c) (omega (arith, in_order))

module _ (e : Codec) (pos : 0 < e.plain_chunk) (cs : Chunks) (shaped : Shape e cs) (off : ℕ) where
  abbrev start : ℕ
  start = off / e.plain_chunk

  abbrev skip : ℕ
  skip = off - start * e.plain_chunk

  skip-lt : skip < e.plain_chunk
  skip-lt = omega (arith, lt-div-mul-add {a = off} {b = e.plain_chunk} pos)

  from_start : drop (start * enc_chunk_size e) (stored_of cs) ≡ stored_of (drop start cs)
  from_start = drop-join (λ x. x.1) (enc_chunk_size e) start cs (Fits-stored e cs shaped)

  plain_from : plain_of (drop start cs) ≡ drop (start * e.plain_chunk) (plain_of cs)
  plain_from = sym (drop-join (λ x. x.0) e.plain_chunk start cs (Fits-plain e cs shaped))

  get-unlimited : get_encrypted e (stored_of cs) off none ≡ some (drop off (plain_of cs))
  unfolding get_encrypted
  get-unlimited =
      ap (decrypt_from (length (stored_of cs)) e skip) from_start
      ∙ decrypt_from-chunks (length (stored_of cs)) e skip (drop start cs)
          (omega (arith, length-drop_le start cs, fewer_chunks e cs shaped)) skip-lt
          (Shape-drop e start cs shaped)
      ∙ ap some (
          ap (drop skip) plain_from
          ∙ sym (drop_add (start * e.plain_chunk) skip (plain_of cs))
          ∙ ap (λ n. drop n (plain_of cs)) at)
    where
      at : start * e.plain_chunk + skip ≡ off
      at = omega (arith, div-mul-le_self off e.plain_chunk)

  get-limited :
      (limit : ℕ)
      → 1 ≤ limit
      → get_encrypted e (stored_of cs) off (some limit) ≡ some (take limit (drop off (plain_of cs)))
  unfolding get_encrypted
  get-limited limit some_limit =
      ap (λ bytes. take_of limit (decrypt_from (length (stored_of cs)) e skip bytes)) part
      ∙ ap (take_of limit) (
          decrypt_from-chunks (length (stored_of cs)) e skip (take m (drop start cs))
            (omega (
              arith,
              length-take_le m (drop start cs),
              length-drop_le start cs,
              fewer_chunks e cs shaped,
            ))
            skip-lt (Shape-take e m (drop start cs) pos (Shape-drop e start cs shaped)))
      ∙ ap some (
          ap (λ bytes. take limit (drop skip bytes)) plain_part
          ∙ bytes_in_block (plain_of cs) limit off (start * e.plain_chunk) (m * e.plain_chunk)
              (div-mul-le_self off e.plain_chunk)
          ∙ ap (λ n. take n (drop off (plain_of cs))) all)
    where
      m : ℕ
      m = (off + limit - 1) / e.plain_chunk - start + 1

      part :
          take (m * enc_chunk_size e) (drop (start * enc_chunk_size e) (stored_of cs))
          ≡ stored_of (take m (drop start cs))
      part =
          ap (take (m * enc_chunk_size e)) from_start
          ∙ take-join (λ x. x.1) (enc_chunk_size e) m (drop start cs)
              (Fits-stored e (drop start cs) (Shape-drop e start cs shaped))

      plain_part :
          plain_of (take m (drop start cs))
          ≡ take (m * e.plain_chunk) (drop (start * e.plain_chunk) (plain_of cs))
      plain_part =
          sym (
            take-join (λ x. x.0) e.plain_chunk m (drop start cs)
              (Fits-plain e (drop start cs) (Shape-drop e start cs shaped)))
          ∙ ap (take (m * e.plain_chunk)) plain_from

      all : min limit (m * e.plain_chunk - skip) ≡ limit
      all = omega (arith, enough_chunks e.plain_chunk off limit pos some_limit)

  get_chunks :
      (limit : Option ℕ)
      → GoodLimit limit
      → get_encrypted e (stored_of cs) off limit ≡ some (slice (plain_of cs) off limit)
  get_chunks none h = get-unlimited
  get_chunks (some limit) h = get-limited limit h

-- What `Put` has stored of an object gives back the part that is asked for.
get-stored :
    (e : Codec) (plain stored : Bytes) (off : ℕ) (limit : Option ℕ)
    → Sound e
    → put_encrypted e plain ≡ some stored
    → GoodLimit limit
    → get_encrypted e stored off limit ≡ some (slice plain off limit)
unfolding put_encrypted
get-stored e plain stored off limit sound put good =
    let w : Written e plain stored =
      encrypt_from-Written e sound (length plain) 0 plain stored put in
    ap (λ s. get_encrypted e s off limit) (sym w.stored_is)
    ∙ get_chunks e sound.some_size w.chunks w.shaped off limit good
    ∙ ap (λ p. some (slice p off limit)) w.plain_is

-- Encrypted storage is transparent. Let the cipher encrypt each chunk within its overhead and decrypt
-- what it has encrypted, let chunks not be empty, and let a chunk's length fit into its header. `Put`
-- stores every object, and what it has stored gives back by `Get`, at any offset, past the end too,
-- and with any positive limit or none, exactly the part of the object that was asked for.
pub get_encrypted-put_encrypted :
    (e : Codec) (plain : Bytes) (off : ℕ) (limit : Option ℕ)
    → Sound e
    → Encrypts e
    → GoodLimit limit
    → (stored : Bytes) × (put_encrypted e plain ≡ some stored)
      × (get_encrypted e stored off limit ≡ some (slice plain off limit))
unfolding put_encrypted
get_encrypted-put_encrypted e plain off limit sound works good =
    let (stored, put) =
      encrypt_from-ends e (length plain) 0 plain sound.some_size works (omega arith) in
    (stored, put, get-stored e plain stored off limit sound put good)

-- ===== src/Encrypt.antt =====
-- Encryption in chunks (pkg/object/encrypt_chunked.go): `chunkedEncrypted` with its readers. The
-- cipher is a parameter. A stream is the list of its bytes, and an error anywhere is `none`.
pub mod Header
pub mod Chunks
pub mod Written
pub mod Total
pub mod RoundTrip
pub mod Size
use my_sync.Common.{
  ℕ, zero, suc, ◌+◌, ◌-◌, ◌*◌, ◌/◌, ◌%◌, Bool, true, false, Option, none, some, List, [], ◌∷◌, ◌++◌,
  length, take, drop, ltb, leb, if◌then◌else◌,
}
use my_sync.Contents.{Bytes}

-- `dataEncryptor`, of which the code uses `Encrypt`, by the number of the call, since it takes fresh
-- random bytes, `Decrypt` and `MaxOverhead`; and the size of a chunk.
pub record Codec : Type 0 where
  pub encrypt : ℕ → Bytes → Option Bytes
  pub decrypt : Bytes → Option Bytes
  pub overhead : ℕ
  pub plain_chunk : ℕ

abbrev pub plain_chunk_size : ℕ
plain_chunk_size = 1_048_576

abbrev pub chunk_header_size : ℕ
chunk_header_size = 4

-- `encChunkSize`
abbrev pub enc_chunk_size : Codec → ℕ
enc_chunk_size e = e.plain_chunk + chunk_header_size + e.overhead

-- `calcPlainSize`
unfoldable pub calc_plain_size : Codec → ℕ → ℕ
calc_plain_size e size =
    if leb size (chunk_header_size + e.overhead)
    then size
    else (let rest = size % enc_chunk_size e in
        let full = size / enc_chunk_size e * e.plain_chunk in
        if ltb (chunk_header_size + e.overhead) rest
        then full + (rest - (chunk_header_size + e.overhead))
        else full)

-- `binary.BigEndian.PutUint32` of `uint32(n)`.
unfoldable pub put_u32 : ℕ → Bytes
put_u32 n = (n / 16_777_216 % 256) ∷ (n / 65_536 % 256) ∷ (n / 256 % 256) ∷ (n % 256) ∷ []

-- `binary.BigEndian.Uint32`; fewer bytes panic, which the callers' tests exclude.
unfoldable pub get_u32 : Bytes → ℕ
get_u32 (a ∷ b ∷ c ∷ d ∷ rest) = a * 16_777_216 + b * 65_536 + c * 256 + d
get_u32 bytes = 0

unfoldable pub zeros : ℕ → Bytes
zeros zero = []
zeros (suc n) = 0 ∷ zeros n

fitted : ℕ → Bytes → Option Bytes
unfolding put_u32 zeros
fitted size ct =
    if ltb size (length ct)
    then none
    else some (put_u32 (length ct) ++ (ct ++ zeros (size - length ct)))

-- A chunk of `chunkEncryptReader.Read`: the length of the ciphertext, the ciphertext, and zeros up
-- to the length of the plaintext with the overhead.
unfoldable pub seal : Codec → ℕ → Bytes → Option Bytes
unfolding fitted
seal e i plain = elim (e.encrypt i plain) [
  | none ↦ none
  | some ct ↦ fitted (length plain + e.overhead) ct
]

abbrev pub and_then : Option Bytes → Option Bytes → Option Bytes
and_then none rest = none
and_then (some bytes) none = none
and_then (some bytes) (some rest) = some (bytes ++ rest)

-- What `chunkEncryptReader` gives, from the chunk numbered `i` on. `io.ReadFull` takes a chunk while
-- there is one.
unfoldable pub encrypt_from : ℕ → Codec → ℕ → Bytes → Option Bytes
unfolding seal
encrypt_from fuel e i [] = some []
encrypt_from zero e i (x ∷ xs) = none
encrypt_from (suc fuel) e i (x ∷ xs) =
    and_then (seal e i (take e.plain_chunk (x ∷ xs)))
      (encrypt_from fuel e (suc i) (drop e.plain_chunk (x ∷ xs)))

-- What `Put` stores.
unfoldable pub put_encrypted : Codec → Bytes → Option Bytes
unfolding encrypt_from
put_encrypted e plain = encrypt_from (length plain) e 0 plain

-- A chunk read back.
unfoldable pub unseal : Codec → Bytes → Option Bytes
unfolding get_u32
unseal e chunk =
    if ltb (length chunk) chunk_header_size
    then none
    else (let ct_len = get_u32 (take chunk_header_size chunk) in
        if ltb (length chunk) (chunk_header_size + ct_len)
        then none
        else e.decrypt (take ct_len (drop chunk_header_size chunk)))

-- The plaintext of a chunk behind the bytes to skip, and the rest. To skip all of it ends the
-- reading.
after_skip : ℕ → Bytes → Option Bytes → Option Bytes
after_skip zero plain rest = and_then (some plain) rest
after_skip (suc skip) plain rest =
    if leb (length plain) (suc skip) then some [] else and_then (some (drop (suc skip) plain)) rest

opened : ℕ → Option Bytes → Option Bytes → Option Bytes
unfolding after_skip
opened skip none rest = none
opened skip (some plain) rest = after_skip skip plain rest

-- What `chunkDecryptReader` gives to its end.
unfoldable pub decrypt_from : ℕ → Codec → ℕ → Bytes → Option Bytes
unfolding unseal opened
decrypt_from fuel e skip [] = some []
decrypt_from zero e skip (x ∷ xs) = none
decrypt_from (suc fuel) e skip (x ∷ xs) =
    opened skip (unseal e (take (enc_chunk_size e) (x ∷ xs)))
      (decrypt_from fuel e 0 (drop (enc_chunk_size e) (x ∷ xs)))

abbrev take_of : ℕ → Option Bytes → Option Bytes
take_of n none = none
take_of n (some bytes) = some (take n bytes)

-- `Get` of a stored object, without a limit and with a positive one. The storage gives the bytes from
-- the offset that it is asked for, up to its limit.
unfoldable pub get_encrypted : Codec → Bytes → ℕ → Option ℕ → Option Bytes
unfolding decrypt_from
get_encrypted e stored off none =
    let start = off / e.plain_chunk in
    decrypt_from (length stored) e (off - start * e.plain_chunk)
      (drop (start * enc_chunk_size e) stored)
get_encrypted e stored off (some limit) =
    let start = off / e.plain_chunk in
    let end = (off + limit - 1) / e.plain_chunk in
    take_of limit (
      decrypt_from (length stored) e (off - start * e.plain_chunk)
        (take ((end - start + 1) * enc_chunk_size e) (drop (start * enc_chunk_size e) stored)))

-- ===== src/Examples/Sealing.antt =====
-- Five bytes in chunks of two, under a cipher that changes nothing.
use my_sync.Common.{◌≡◌, refl, sym, some, [], ◌∷◌, length, arith}
use my_sync.Contents.{Bytes}
use my_sync.Encrypt.{Codec, calc_plain_size, put_encrypted, get_encrypted}
use my_sync.Encrypt.Header.{Sound}
use my_sync.Encrypt.RoundTrip.{get_encrypted-put_encrypted}
use my_sync.Encrypt.Size.{calc_plain_size-put_encrypted}

abbrev plain_codec : Codec
plain_codec = record {
  encrypt = λ i p. some p;
  decrypt = λ ct. some ct;
  overhead = 1;
  plain_chunk = 2;
}

plain_codec-Sound : Sound plain_codec
plain_codec-Sound = record {
  some_size = omega arith;
  short = omega arith;
  inverse = λ i p ct h. sym h;
}

abbrev five_bytes : Bytes
five_bytes = 1 ∷ 2 ∷ 3 ∷ 4 ∷ 5 ∷ []

abbrev sealed_bytes : Bytes
sealed_bytes = 0 ∷ 0 ∷ 0 ∷ 2 ∷ 1 ∷ 2 ∷ 0 ∷ 0 ∷ 0 ∷ 0 ∷ 2 ∷ 3 ∷ 4 ∷ 0 ∷ 0 ∷ 0 ∷ 0 ∷ 1 ∷ 5 ∷ 0 ∷ []

get_encrypted-put_encrypted_example :
    (stored : Bytes) × (put_encrypted plain_codec five_bytes ≡ some stored)
    × (get_encrypted plain_codec stored 1 (some 3) ≡ some (2 ∷ 3 ∷ 4 ∷ []))
get_encrypted-put_encrypted_example =
    get_encrypted-put_encrypted plain_codec five_bytes 1 (some 3) plain_codec-Sound
      (λ i p. (p, refl, omega arith)) (omega arith)

calc_plain_size-put_encrypted_example : calc_plain_size plain_codec (length sealed_bytes) ≡ 5
unfolding put_encrypted
calc_plain_size-put_encrypted_example =
    calc_plain_size-put_encrypted plain_codec five_bytes sealed_bytes plain_codec-Sound refl

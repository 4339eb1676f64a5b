-- ===== src/Encrypt/Size.antt =====
-- The size of a stored object tells that of its plaintext.
use native.Mathlib.Nat.{add-mul-div_right, add-mul-mod_self_right, div-eq_of_lt, mod-eq_of_lt}
use my_sync.Common.{
  ℕ, zero, suc, ◌+◌, ◌*◌, ◌/◌, ◌%◌, ◌<◌, ◌≡◌, sym, ap, ◌∙◌, some, [], ◌∷◌, length, arith,
  length-append, dec_lt, if◌then◌else◌, ltb,
}
use my_sync.Contents.{Bytes}
use my_sync.Encrypt.{Codec, enc_chunk_size, calc_plain_size, put_encrypted, chunk_header_size}
use my_sync.Encrypt.Header.{Sound}
use my_sync.Encrypt.Chunks.{Chunks, Shape, plain_of, stored_of}
use my_sync.Encrypt.Written.{Written, encrypt_from-Written}

-- So many full chunks and a rest that is no full one.
pub record Layout (e : Codec) (plain stored : ℕ) : Type 0 where
  pub full : ℕ
  pub rest : ℕ
  pub small : rest < e.plain_chunk
  pub plain_is : plain ≡ full * e.plain_chunk + rest
  pub stored_is :
      stored
      ≡ full * enc_chunk_size e + (if ltb 0 rest then rest + chunk_header_size + e.overhead else 0)

chunks-Layout :
    (e : Codec) (cs : Chunks)
    → 0 < e.plain_chunk
    → Shape e cs
    → Layout e (length (plain_of cs)) (length (stored_of cs))
chunks-Layout e [] pos h = record {
  full = 0;
  rest = 0;
  small = pos;
  plain_is = omega arith;
  stored_is = omega arith;
}
chunks-Layout e ((p, chunk) ∷ []) pos h = elim (dec_lt (length p) e.plain_chunk) [
  | yes less ↦ record {
    full = 0;
    rest = length p;
    small = less;
    plain_is = omega (arith, length-append {0} p []);
    stored_is = ground (arith, length-append {0} chunk [], h.0.0, h.1.0);
  }
  | no whole ↦ record {
    full = 1;
    rest = 0;
    small = pos;
    plain_is = omega (arith, length-append {0} p [], whole, h.1.1);
    stored_is = omega (arith, length-append {0} chunk [], h.0.0, whole, h.1.1);
  }
]
chunks-Layout e ((p, chunk) ∷ x ∷ cs) pos h =
    let l : Layout e (length (plain_of (x ∷ cs))) (length (stored_of (x ∷ cs))) =
      chunks-Layout e (x ∷ cs) pos h.2 in
    record {
      full = suc l.full;
      rest = l.rest;
      small = l.small;
      plain_is = omega (arith, length-append {0} p (plain_of (x ∷ cs)), h.1, l.plain_is);
      stored_is =
          omega (arith, length-append {0} chunk (stored_of (x ∷ cs)), h.0.0, h.1, l.stored_is);
    }

-- The quotient and the rest of a number that is written with them.
div_mod_of : (q r c : ℕ) → r < c → ((q * c + r) / c ≡ q) × ((q * c + r) % c ≡ r)
div_mod_of q r c h = (
  ap (λ n. n / c) (swap (q * c) r)
      ∙ add-mul-div_right r q (omega (arith, h))
      ∙ omega (arith, div-eq_of_lt h),
  ap (λ n. n % c) (swap (q * c) r) ∙ add-mul-mod_self_right r q c ∙ mod-eq_of_lt h,
)
  where
    swap : (a b : ℕ) → a + b ≡ b + a
    swap a b = omega arith

abbrev tail : Codec → ℕ → ℕ
tail e rest = if ltb 0 rest then rest + chunk_header_size + e.overhead else 0

size_of :
    (e : Codec) (full rest : ℕ)
    → rest < e.plain_chunk
    → calc_plain_size e (full * enc_chunk_size e + tail e rest) ≡ full * e.plain_chunk + rest
unfolding calc_plain_size
size_of e zero rest small =
    let (quotient, left) =
      div_mod_of zero (tail e rest) (enc_chunk_size e) (ground (arith, small)) in
    ground (arith, quotient, left, small)
size_of e (suc full) rest small =
    let (quotient, left) =
      div_mod_of (suc full) (tail e rest) (enc_chunk_size e) (ground (arith, small)) in
    ground (arith, quotient, left, small)

plain_size-Layout :
    (e : Codec) (plain stored : ℕ) → Layout e plain stored → calc_plain_size e stored ≡ plain
plain_size-Layout e plain stored l =
    ap (calc_plain_size e) l.stored_is ∙ size_of e l.full l.rest l.small ∙ sym l.plain_is

-- Let the cipher decrypt what it has encrypted, let chunks not be empty, and let a chunk's length
-- fit into its header. `calcPlainSize`, by which encrypted storage tells the size of an object, gives
-- of what `Put` has stored the size of the plaintext, of an empty object and of one that ends with a
-- full chunk too.
pub calc_plain_size-put_encrypted :
    (e : Codec) (plain stored : Bytes)
    → Sound e
    → put_encrypted e plain ≡ some stored
    → calc_plain_size e (length stored) ≡ length plain
unfolding put_encrypted
calc_plain_size-put_encrypted e plain stored sound put =
    let w : Written e plain stored =
      encrypt_from-Written e sound (length plain) 0 plain stored put in
    ap (λ s. calc_plain_size e (length s)) (sym w.stored_is)
    ∙ plain_size-Layout e (length (plain_of w.chunks)) (length (stored_of w.chunks))
        (chunks-Layout e w.chunks sound.some_size w.shaped)
    ∙ ap {A = Bytes} length w.plain_is

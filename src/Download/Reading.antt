-- ===== src/Download/Reading.antt =====
-- What each operation does to the bytes that a download keeps and hands out.
use my_sync.Common.{
  ℕ, zero, suc, ◌+◌, ◌-◌, ◌≤◌, ◌≡◌, refl, ap, ◌∙◌, Option, none, some, List, [], ◌∷◌, ◌++◌, length,
  take, drop, All, arith, leb, ltb, ◌==◌, Bool-cases, inl, inr, min,
}
use my_sync.Common.Map
use my_sync.Common.Map.{Map, number_keys}
use my_sync.Contents.{Bytes}
use native.Mathlib.Nat.{div-mul-le_self}
use my_sync.Contents.Blocks.{length-drop}
use my_sync.Contents.Pieces.{min-same, take-take, bytes_in_block, taken_further, length-take_le}
use my_sync.Download.{
  Downloader, block_len, current, spawn, save, fetch, consume, read_block, read, close, Move,
  spawns, closes, looks, fetches, leaves, reads, move, run_moves, of_storage, short, in_phase,
  Phase, started, fetching, leaving, Fault,
}

-- The block of the object at an offset.
abbrev pub block : Bytes → ℕ → ℕ → Bytes
block content block_size off = take (block_len (length content) block_size off) (drop off content)

-- A `Get` that gives bytes gives those of the object at the block's offset.
abbrev pub Honest : Bytes → ℕ → Move → Type 0
Honest content block_size (fetches off (some body) e) = body ≡ block content block_size off
Honest content block_size _ = Unit

-- Each buffer has the block of its offset.
abbrev pub Blocks : Bytes → ℕ → Map ℕ Bytes → Type 0
Blocks content b buffers =
    (off : ℕ) (p : Bytes) → Map.get buffers off ≡ some p → p ≡ block content b off

-- The download of `content` with a block size.
pub record Delivers (content : Bytes) (b : ℕ) (d : Downloader) : Type 0 where
  pub whole : d.fsize ≡ length content
  pub blocked : d.block_size ≡ b
  pub handed : d.delivered ≡ take d.pos content
  pub inside : d.pos ≤ length content
  pub blocks : Blocks content b d.buffers

Blocks-put :
    (content : Bytes) (b : ℕ) (buffers : Map ℕ Bytes) (off : ℕ) (p : Bytes)
    → Blocks content b buffers
    → p ≡ block content b off
    → Blocks content b (Map.put buffers off p)
Blocks-put content b buffers off p h e i q found =
    ground (arith, Map.get-put buffers off i p, h i q, found)

Blocks-delete :
    (content : Bytes) (b : ℕ) (buffers : Map ℕ Bytes) (off : ℕ)
    → Blocks content b buffers
    → Blocks content b (Map.delete buffers off)
Blocks-delete content b buffers off h i q found =
    ground (arith, Map.get-delete buffers off i, h i q, found)

module _ {content : Bytes} {b : ℕ} {d : Downloader} (good : Delivers content b d) where
  save-Delivers :
      (off : ℕ) (p : Bytes) → p ≡ block content b off → Delivers content b (save d off p)
  unfolding save
  save-Delivers off p e = elim (Bool-cases d.closed) [
    | inl shut ↦
        rw (save, shut)
          (record {
            whole = good.whole;
            blocked = good.blocked;
            handed = good.handed;
            inside = good.inside;
            blocks = good.blocks;
          })
    | inr still ↦
        rw (save, still)
          (record {
            whole = good.whole;
            blocked = good.blocked;
            handed = good.handed;
            inside = good.inside;
            blocks = Blocks-put content b d.buffers off p good.blocks e;
          })
  ]

  -- Bytes of the object are handed out; a block may be dropped.
  handed-Delivers :
      (bytes : Bytes) (m : ℕ) (buffers : Map ℕ Bytes) (held : ℕ)
      → bytes ≡ take m (drop d.pos content)
      → Blocks content b buffers
      → Delivers content b (record d {
        pos = d.pos + length bytes;
        delivered = d.delivered ++ bytes;
        buffers = buffers;
        held = held;
      })
  handed-Delivers bytes m buffers held e blocks = record {
    whole = good.whole;
    blocked = good.blocked;
    handed = ap (λ xs. xs ++ bytes) good.handed ∙ taken_further content bytes d.pos m e;
    inside = within;
    blocks = blocks;
  }
    where
      within : d.pos + length bytes ≤ length content
      within = omega (
        arith,
        good.inside,
        ap {A = Bytes} length e,
        length-take_le m (drop d.pos content),
        length-drop {0} d.pos content,
      )

  consume-Delivers :
      (off n : ℕ) (p : Bytes)
      → off ≤ d.pos
      → p ≡ block content b off
      → Delivers content b (consume d off p (take n (drop (d.pos - off) p)))
  unfolding consume
  consume-Delivers off n p h e =
      elim (Bool-cases (d.pos + length (take n (drop (d.pos - off) p)) == off + length p)) [
        | inl ends ↦
            rw (consume, ends)
              (handed-Delivers (take n (drop (d.pos - off) p)) (min n (len - (d.pos - off)))
                (Map.delete d.buffers off) (d.held - 1) placed
                (Blocks-delete content b d.buffers off good.blocks))
        | inr more ↦
            rw (consume, more)
              (handed-Delivers (take n (drop (d.pos - off) p)) (min n (len - (d.pos - off)))
                d.buffers d.held placed good.blocks)
      ]
    where
      len : ℕ
      len = block_len (length content) b off

      placed :
          take n (drop (d.pos - off) p) ≡ take (min n (len - (d.pos - off))) (drop d.pos content)
      placed = rw e (bytes_in_block content n d.pos off len h)

  read_block-Delivers :
      (n : ℕ) (q : Option Bytes)
      → Map.get d.buffers (current d) ≡ q
      → Delivers content b (read_block d n q).0
  unfolding read_block
  read_block-Delivers n none e = good
  read_block-Delivers n (some p) e =
      consume-Delivers (current d) n p (div-mul-le_self d.pos d.block_size)
        (good.blocks (current d) p e)

  read-Delivers : (n : ℕ) → Delivers content b (read d n).0
  unfolding read
  read-Delivers zero = good
  read-Delivers (suc n) = elim (Bool-cases (leb d.fsize d.pos)) [
    | inl ends ↦ rw (read, ends) good
    | inr more ↦ rw (read, more) (read_block-Delivers (suc n) (Map.get d.buffers (current d)) refl)
  ]

  -- Nothing of what is handed out or kept changes.
  kept-Delivers :
      (next held : ℕ) (active : Map ℕ Phase) (err : Option Fault)
      → Delivers content b (record d { next = next; held = held; active = active; err = err })
  kept-Delivers next held active err = record {
    whole = good.whole;
    blocked = good.blocked;
    handed = good.handed;
    inside = good.inside;
    blocks = good.blocks;
  }

  fetch-Delivers :
      (off : ℕ) (answer : Option Bytes) (e : ℕ)
      → Honest content b (fetches off answer e)
      → Delivers content b (fetch d off answer e)
  unfolding fetch
  fetch-Delivers off none e honest =
      kept-Delivers d.next d.held (Map.put d.active off leaving) (some (of_storage e))
  fetch-Delivers off (some body) e honest = elim (Bool-cases (ltb (length body) size)) [
    | inl less ↦
        rw (fetch, less) (kept-Delivers d.next d.held (Map.put d.active off leaving) (some short))
    | inr full ↦ rw (fetch, full) (save-Delivers off (take size body) filled)
  ]
    where
      size : ℕ
      size = block_len d.fsize d.block_size off

      len : ℕ
      len = block_len (length content) b off

      filled : take size body ≡ block content b off
      filled =
          ap (take size) honest
          ∙ take-take size len (drop off content)
          ∙ ap (λ k. take k (drop off content)) (min-same size len (cc))

  close-Delivers : Delivers content b (close d)
  unfolding close Map.get
  close-Delivers = record {
    whole = good.whole;
    blocked = good.blocked;
    handed = good.handed;
    inside = good.inside;
    blocks = λ off p found. cc;
  }

  move-Delivers : (s : Move) → Honest content b s → Delivers content b (move d s)
  unfolding move
  move-Delivers spawns h = elim (Bool-cases (ltb d.next d.fsize)) [
    | inl more ↦
        rw (spawn, more)
          (kept-Delivers (d.next + d.block_size) (suc d.held) (Map.put d.active d.next started)
            d.err)
    | inr over ↦ rw (spawn, over) good
  ]
  move-Delivers closes h = close-Delivers
  move-Delivers (looks off) h = elim (Bool-cases (in_phase started (Map.get d.active off))) [
    | inl on ↦ rw on (
        kept-Delivers d.next d.held
          (Map.put d.active off (elim d.err [ none ↦ fetching | some e ↦ leaving ])) d.err)
    | inr off ↦ rw off good
  ]
  move-Delivers (fetches off answer e) h =
      elim (Bool-cases (in_phase fetching (Map.get d.active off))) [
        | inl on ↦ rw on (fetch-Delivers off answer e h)
        | inr off ↦ rw off good
      ]
  move-Delivers (leaves off) h = elim (Bool-cases (in_phase leaving (Map.get d.active off))) [
    | inl on ↦ rw on (kept-Delivers d.next (d.held - 1) (Map.delete d.active off) d.err)
    | inr off ↦ rw off good
  ]
  move-Delivers (reads n) h = read-Delivers n

pub run_moves-Delivers :
    (content : Bytes) (b : ℕ) (d : Downloader) (steps : List Move)
    → Delivers content b d
    → All (Honest content b) steps
    → Delivers content b (run_moves d steps)
unfolding run_moves
run_moves-Delivers content b d [] good honest = good
run_moves-Delivers content b d (s ∷ steps) good honest =
    run_moves-Delivers content b (move d s) steps (move-Delivers good s honest.0) honest.1

-- ===== src/Download/Counting.antt =====
-- What each operation does to the slots that a download holds.
-- which gives none back.
use my_sync.Common.{
  ℕ, zero, suc, ◌+◌, ◌-◌, ◌<◌, ◌≡◌, refl, not, ◌&&◌, Bool, true, false, ◌||◌, Option, none, some,
  List, [], ◌∷◌, length, ltb, ◌==◌, leb, take, drop, arith, Bool-cases, Option-cases, by_test, inl,
  inr,
}
use my_sync.Common.Map
use my_sync.Common.Map.{Map, number_keys, ◌=?◌}
use my_sync.Common.Sizes.{
  Distinct, contains-delete, contains-put, Distinct-delete, Distinct-put, length-delete, length-put,
}
use my_sync.Contents.{Bytes}
use my_sync.Download.{
  Downloader, Phase, started, fetching, leaving, in_phase, spawn, look, save, fetch, leave,
  block_len, current, consume, read_block, read, close, Move, spawns, closes, looks, fetches,
  leaves, reads, move, Fault, of_storage, short,
}

-- A block has a goroutine or a buffer.
abbrev pub present : Downloader → ℕ → Bool
present d off = Map.contains d.active off || Map.contains d.buffers off

-- `lost` slots belong to blocks that `Close` dropped.
pub record Counted (lost : ℕ) (d : Downloader) : Type 0 where
  pub some_size : 0 < d.block_size
  pub count : d.held ≡ length d.active + length d.buffers + lost
  pub once : Distinct d.active
  pub stored_once : Distinct d.buffers
  pub apart : (off : ℕ) → Map.contains d.active off ≡ true → Map.contains d.buffers off ≡ false
  pub below : (off : ℕ) → present d off ≡ true → off < d.next

abbrev pub is_close : Move → Bool
is_close closes = true
is_close _ = false

abbrev pub none_closes : List Move → Bool
none_closes [] = true
none_closes (s ∷ steps) = not (is_close s) && none_closes steps

pub in_phase-contains :
    (p : Phase) (m : Map ℕ Phase) (off : ℕ)
    → in_phase p (Map.get m off) ≡ true
    → Map.contains m off ≡ true
in_phase-contains p m off h = elim (Option-cases (Map.get m off)) [
  | inl e ↦ none_in p (rw e at h)
  | inr (q, e) ↦ rw (e, Map.contains) refl
]
  where
    none_in : (p : Phase) → in_phase p none ≡ true → Map.contains m off ≡ true
    none_in started h = cc
    none_in fetching h = cc
    none_in leaving h = cc

module _ {lost : ℕ} {d : Downloader} (good : Counted lost d) where
  spawn-Counted : Counted lost (spawn d)
  unfolding spawn
  spawn-Counted = elim (Bool-cases (ltb d.next d.fsize)) [
    | inr over ↦ rw (spawn, over) good
    | inl more ↦
        rw (spawn, more)
          (record {
            some_size = good.some_size;
            count = ground (
              arith,
              good.count,
              length-put d.active d.next started good.once,
              good.below d.next,
            );
            once = Distinct-put d.active d.next started good.once;
            stored_once = good.stored_once;
            apart = λ off h. ground (
              arith,
              contains-put d.active d.next off started,
              good.apart off,
              good.below off,
              h,
            );
            below = λ off h. ground (
              arith,
              contains-put d.active d.next off started,
              good.below off,
              h,
              good.some_size,
            );
          })
  ]

  -- A goroutine gets to another place.
  moved-Counted :
      (off : ℕ) (p : Phase) (err : Option Fault)
      → Map.contains d.active off ≡ true
      → Counted lost (record d { active = Map.put d.active off p; err = err })
  moved-Counted off p err there = record {
    some_size = good.some_size;
    count = ground (arith, good.count, length-put d.active off p good.once, there);
    once = Distinct-put d.active off p good.once;
    stored_once = good.stored_once;
    apart = λ i h. ground (arith, contains-put d.active off i p, good.apart i, h, there);
    below = λ i h. ground (arith, contains-put d.active off i p, good.below i, h, there);
  }

  saved-Counted :
      (off : ℕ) (p : Bytes)
      → Map.contains d.active off ≡ true
      → Counted lost
          (record d { active = Map.delete d.active off; buffers = Map.put d.buffers off p })
  saved-Counted off p there = record {
    some_size = good.some_size;
    count = ground (
      arith,
      good.count,
      length-delete d.active off good.once,
      length-put d.buffers off p good.stored_once,
      there,
      good.apart off,
    );
    once = Distinct-delete d.active off good.once;
    stored_once = Distinct-put d.buffers off p good.stored_once;
    apart = λ i h.
        ground
          (arith, contains-delete d.active off i, contains-put d.buffers off i p, good.apart i, h);
    below = λ i h. ground (
      arith,
      contains-delete d.active off i,
      contains-put d.buffers off i p,
      good.below i,
      h,
      there,
    );
  }

  leave-Counted : (off : ℕ) → Map.contains d.active off ≡ true → Counted lost (leave d off)
  unfolding leave
  leave-Counted off there = record {
    some_size = good.some_size;
    count = ground (arith, good.count, length-delete d.active off good.once, there);
    once = Distinct-delete d.active off good.once;
    stored_once = good.stored_once;
    apart = λ i h. ground (arith, contains-delete d.active off i, good.apart i, h);
    below = λ i h. ground (arith, contains-delete d.active off i, good.below i, h);
  }

  consume-Counted :
      (off : ℕ) (p bytes : Bytes)
      → Map.contains d.buffers off ≡ true
      → Counted lost (consume d off p bytes)
  unfolding consume
  consume-Counted off p bytes there = elim (Bool-cases (d.pos + length bytes == off + length p)) [
    | inr more ↦
        rw (consume, more)
          (record {
            some_size = good.some_size;
            count = good.count;
            once = good.once;
            stored_once = good.stored_once;
            apart = good.apart;
            below = good.below;
          })
    | inl ends ↦
        rw (consume, ends)
          (record {
            some_size = good.some_size;
            count = ground (arith, good.count, length-delete d.buffers off good.stored_once, there);
            once = good.once;
            stored_once = Distinct-delete d.buffers off good.stored_once;
            apart = λ i h. ground (arith, contains-delete d.buffers off i, good.apart i, h);
            below = λ i h. ground (arith, contains-delete d.buffers off i, good.below i, h);
          })
  ]

  -- What `Close` drops keeps its slots.
  pub close-Counted : Counted (length d.buffers + lost) (close d)
  unfolding close Map.get
  close-Counted = record {
    some_size = good.some_size;
    count = omega (arith, good.count);
    once = good.once;
    stored_once = tt;
    apart = λ off h. refl;
    below = λ off h. ground (arith, good.below off, h);
  }

  fetch-Counted :
      (off : ℕ) (answer : Option Bytes) (e : ℕ)
      → Map.contains d.active off ≡ true
      → Counted lost (fetch d off answer e)
  unfolding fetch save
  fetch-Counted off none e there = moved-Counted off leaving (some (of_storage e)) there
  fetch-Counted off (some body) e there =
      elim (Bool-cases (ltb (length body) (block_len d.fsize d.block_size off))) [
        | inl less ↦ rw (fetch, less) (moved-Counted off leaving (some short) there)
        | inr full ↦
            rw (fetch, full)
              (by_test (Counted lost) d.closed (λ _. moved-Counted off leaving d.err there)
                (λ _. saved-Counted off (take (block_len d.fsize d.block_size off) body) there))
      ]

  read-Counted : (n : ℕ) → Counted lost (read d n).0
  unfolding read read_block
  read-Counted zero = good
  read-Counted (suc n) = elim (Bool-cases (leb d.fsize d.pos)) [
    | inl ends ↦ rw (read, ends) good
    | inr more ↦
        rw (read, more)
          (elim (Option-cases (Map.get d.buffers (current d))) [
            | inl e ↦ rw (read_block, e) good
            | inr (p, e) ↦
                rw (read_block, e)
                  (consume-Counted (current d) p (take (suc n) (drop (d.pos - current d) p))
                    (rw (e, Map.contains) refl))
          ])
  ]

  -- Any step but `Close`.
  pub move-Counted : (s : Move) → is_close s ≡ false → Counted lost (move d s)
  unfolding move look
  move-Counted spawns h = spawn-Counted
  move-Counted closes h = cc
  move-Counted (looks off) h = elim (Bool-cases (in_phase started (Map.get d.active off))) [
    | inl on ↦ rw on (
        moved-Counted off (elim d.err [ none ↦ fetching | some e ↦ leaving ]) d.err
          (in_phase-contains started d.active off on))
    | inr off ↦ rw off good
  ]
  move-Counted (fetches off answer e) h =
      elim (Bool-cases (in_phase fetching (Map.get d.active off))) [
        | inl on ↦ rw on (fetch-Counted off answer e (in_phase-contains fetching d.active off on))
        | inr off ↦ rw off good
      ]
  move-Counted (leaves off) h = elim (Bool-cases (in_phase leaving (Map.get d.active off))) [
    | inl on ↦ rw on (leave-Counted off (in_phase-contains leaving d.active off on))
    | inr off ↦ rw off good
  ]
  move-Counted (reads n) h = read-Counted n

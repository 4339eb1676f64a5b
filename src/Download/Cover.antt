-- ===== src/Download/Cover.antt =====
-- Which blocks a download without an error has under way, and what its operations do to them.
use my_sync.Common.{
  ℕ, suc, ◌+◌, ◌-◌, ◌*◌, ◌≤◌, ◌<◌, ◌≡◌, ◌≢◌, refl, subst, Bool, true, false, ◌||◌, Option, none,
  some, ◌++◌, length, ==_iff, ◌==◌, arith, Option-cases, ℕ_discrete, dec_lt, inl, inr,
}
use my_sync.Common.Map
use my_sync.Common.Map.{Map, number_keys, ◌=?◌}
use my_sync.Common.Sizes.{contains-delete, contains-put}
use my_sync.Contents.{Bytes}
use native.Mathlib.Nat.{mul-le-mul_right}
use my_sync.Download.{Downloader, Phase, started, fetching, leaving, in_phase, leave, block_len}
use my_sync.Download.Counting.{present}

-- An offset at which a block starts.
abbrev pub IsBlock : ℕ → ℕ → Type 0
IsBlock b off = (k : ℕ) × (off ≡ k * b)

-- The next block starts at the end of this one, at the earliest.
pub IsBlock-apart : (b i j : ℕ) → IsBlock b i → IsBlock b j → i < j → i + b ≤ j
IsBlock-apart b i j (k, ek) (l, el) h = elim (dec_lt k l) [
  | yes less ↦ omega (arith, ek, el, mul-le-mul_right {m = suc k} {n = l} b less)
  | no over ↦
      absurd (omega (arith, h, ek, el, mul-le-mul_right {m = l} {n = k} b (omega (arith, over))))
]

-- The goroutine of a block has not met an error.
abbrev pub is_busy : Option Phase → Bool
is_busy (some started) = true
is_busy (some fetching) = true
is_busy _ = false

abbrev pub coming : Downloader → ℕ → Bool
coming d off = is_busy (Map.get d.active off) || Map.contains d.buffers off

-- The state of an open download without an error; `b` is its block size.
pub record Covers (b : ℕ) (d : Downloader) : Type 0 where
  pub size : d.block_size ≡ b
  pub positive : 0 < b
  pub edge : IsBlock b d.next
  pub placed : (off : ℕ) → present d off ≡ true → IsBlock b off × (off < d.fsize) × (off < d.next)
  pub behind : d.pos ≤ d.next
  pub ahead : (off : ℕ) → present d off ≡ true → d.pos < off + b
  pub covered :
      d.pos < d.fsize
      → (off : ℕ) → IsBlock b off
      → off < d.next
      → d.pos < off + b
      → coming d off ≡ true
  pub lengths :
      (off : ℕ) (p : Bytes) → Map.get d.buffers off ≡ some p → length p ≡ block_len d.fsize b off

-- After an error or `Close` nothing is promised.
pub record Lively (b : ℕ) (d : Downloader) : Type 0 where
  pub closes_badly : d.closed ≡ true → d.err ≢ none
  pub while_fine : d.err ≡ none → Covers b d

is_busy-contains :
    (m : Map ℕ Phase) (off : ℕ) → is_busy (Map.get m off) ≡ true → Map.contains m off ≡ true
is_busy-contains m off h = elim (Option-cases (Map.get m off)) [
  | inl e ↦ ground (arith, e, h)
  | inr (q, e) ↦ rw (e, Map.contains) refl
]

module _ {b : ℕ} {d : Downloader} (good : Covers b d) where
  pub spawn-Covers :
      d.next < d.fsize
      → Covers b (record d {
        held = suc d.held;
        active = Map.put d.active d.next started;
        next = d.next + d.block_size;
      })
  spawn-Covers more = record {
    size = good.size;
    positive = good.positive;
    edge = next_block;
    placed = λ off h. elim (ℕ_discrete d.next off) [
      | yes e ↦ (
        subst (IsBlock b) e good.edge,
        omega (arith, e, more),
        ground (arith, e, good.size, good.positive),
      )
      | no n ↦
          let (at, within, before) =
            good.placed off (ground (arith, contains-put d.active d.next off started, h, n)) in
          (at, within, omega (arith, before))
    ];
    behind = omega (arith, good.behind);
    ahead = λ off h. ground (
      arith,
      contains-put d.active d.next off started,
      good.ahead off,
      good.behind,
      good.positive,
      h,
    );
    covered = λ inside off at before close. elim (ℕ_discrete d.next off) [
      | yes e ↦ ground (arith, Map.get-put d.active d.next off started, e)
      | no n ↦ ground (
        arith,
        Map.get-put d.active d.next off started,
        n,
        good.covered inside off at (earlier off at before n) close,
      )
    ];
    lengths = good.lengths;
  }
    where
      next_block : IsBlock b (d.next + d.block_size)
      next_block = let (k, e) = good.edge in (suc k, omega (arith, e, good.size))

      earlier :
          (off : ℕ) → IsBlock b off → off < d.next + d.block_size → d.next ≢ off → off < d.next
      earlier off at before n = elim (dec_lt off d.next) [
        | yes less ↦ less
        | no over ↦
            absurd
              (omega (arith, before, over, n, good.size, IsBlock-apart b d.next off good.edge at))
      ]

  -- A goroutine without an error gets to another place.
  pub moved-Covers :
      (off : ℕ) (p : Phase)
      → Map.contains d.active off ≡ true
      → is_busy (some p) ≡ true
      → Covers b (record d { active = Map.put d.active off p })
  moved-Covers off p there busy = record {
    size = good.size;
    positive = good.positive;
    edge = good.edge;
    placed = λ i h. good.placed i (ground (arith, contains-put d.active off i p, h, there));
    behind = good.behind;
    ahead = λ i h. good.ahead i (ground (arith, contains-put d.active off i p, h, there));
    covered = λ inside i at before close.
        ground (arith, Map.get-put d.active off i p, good.covered inside i at before close, busy);
    lengths = good.lengths;
  }

  pub saved-Covers :
      (off : ℕ) (p : Bytes)
      → Map.contains d.active off ≡ true
      → length p ≡ block_len d.fsize b off
      → Covers b (record d { active = Map.delete d.active off; buffers = Map.put d.buffers off p })
  saved-Covers off p there sized = record {
    size = good.size;
    positive = good.positive;
    edge = good.edge;
    placed = λ i h.
        good.placed i (
          ground (arith, contains-delete d.active off i, contains-put d.buffers off i p, h, there));
    behind = good.behind;
    ahead = λ i h.
        good.ahead i (
          ground (arith, contains-delete d.active off i, contains-put d.buffers off i p, h, there));
    covered = λ inside i at before close. ground (
      arith,
      Map.get-delete d.active off i,
      contains-put d.buffers off i p,
      good.covered inside i at before close,
    );
    lengths =
        λ i q found. ground (arith, Map.get-put d.buffers off i p, good.lengths i q, sized, found);
  }

  pub left-Covers :
      (off : ℕ) → in_phase leaving (Map.get d.active off) ≡ true → Covers b (leave d off)
  unfolding leave
  left-Covers off there = record {
    size = good.size;
    positive = good.positive;
    edge = good.edge;
    placed = λ i h. good.placed i (ground (arith, contains-delete d.active off i, h));
    behind = good.behind;
    ahead = λ i h. good.ahead i (ground (arith, contains-delete d.active off i, h));
    covered = λ inside i at before close.
        ground (arith, Map.get-delete d.active off i, good.covered inside i at before close, there);
    lengths = good.lengths;
  }

  module _ (off : ℕ) (p bytes : Bytes) (found : Map.get d.buffers off ≡ some p) (at : off ≤ d.pos)
      (fits : length bytes + (d.pos - off) ≤ length p) where
    held_there : present d off ≡ true
    held_there = ground (arith, found)

    its_end : (off + b ≤ d.next) × (length p ≤ b) × (off < d.fsize) × IsBlock b off
    its_end =
        let (block, inside, before) = good.placed off held_there in
        (
          IsBlock-apart b off d.next block good.edge before,
          ground (arith, good.lengths off p found),
          inside,
          block,
        )

    not_before : (i : ℕ) → present d i ≡ true → off ≤ i
    not_before i h = elim (dec_lt i off) [
      | yes less ↦ absurd (
          omega
            (arith, IsBlock-apart b i off (good.placed i h).0 its_end.3 less, good.ahead i h, at))
      | no over ↦ omega (arith, over)
    ]

    -- The reader takes bytes of the block that it is in.
    pub within-Covers :
        (d.pos + length bytes == off + length p) ≡ false
        → Covers b (record d { pos = d.pos + length bytes; delivered = d.delivered ++ bytes })
    within-Covers more = record {
      size = good.size;
      positive = good.positive;
      edge = good.edge;
      placed = good.placed;
      behind = omega (arith, its_end.0, its_end.1, fits, at);
      ahead = λ i h. omega (arith, not_before i h, its_end.1, fits, at, short_of_end);
      covered = λ inside i at before close.
          good.covered (omega (arith, inside)) i at before (omega (arith, close));
      lengths = good.lengths;
    }
      where
        short_of_end : d.pos + length bytes < off + length p
        short_of_end = ground (arith, more, fits, at)

    -- The reader takes the last byte of its block.
    pub past-Covers :
        (held : ℕ)
        → Map.contains d.active off ≡ false
        → (d.pos + length bytes == off + length p) ≡ true
        → Covers b (record d {
          pos = d.pos + length bytes;
          delivered = d.delivered ++ bytes;
          buffers = Map.delete d.buffers off;
          held = held;
        })
    past-Covers held alone ends = record {
      size = good.size;
      positive = good.positive;
      edge = good.edge;
      placed = λ i h. good.placed i (still i h);
      behind = omega (arith, its_end.0, its_end.1, fits, at);
      ahead = λ i h. omega (arith, at_end, its_end.1, after i h, good.positive);
      covered = λ inside i at' before close. ground (
        arith,
        contains-delete d.buffers off i,
        good.covered (omega (arith, inside)) i at' before (omega (arith, close)),
        full_block inside,
        close,
      );
      lengths = λ i q got. good.lengths i q (ground (arith, Map.get-delete d.buffers off i, got));
    }
      where
        at_end : d.pos + length bytes ≡ off + length p
        at_end = (==_iff (d.pos + length bytes) (off + length p)).0 ends

        still :
            (i : ℕ)
            → (Map.contains d.active i || Map.contains (Map.delete d.buffers off) i) ≡ true
            → present d i ≡ true
        still i h = ground (arith, contains-delete d.buffers off i, h)

        after :
            (i : ℕ)
            → (Map.contains d.active i || Map.contains (Map.delete d.buffers off) i) ≡ true
            → off + b ≤ i
        after i h = elim (ℕ_discrete off i) [
          | yes e ↦ absurd (ground (arith, contains-delete d.buffers off i, e, alone, h))
          | no n ↦
              IsBlock-apart b off i its_end.3 (good.placed i (still i h)).0
                (omega (arith, n, not_before i (still i h)))
        ]

        full_block : d.pos + length bytes < d.fsize → length p ≡ b
        full_block inside = ground (arith, inside, at_end, good.lengths off p found)

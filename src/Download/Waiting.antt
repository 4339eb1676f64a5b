-- ===== src/Download/Waiting.antt =====
-- A reader that waits is waiting for a block that is under way, or for the next one to be started.
use my_sync.Common.{
  ℕ, zero, suc, ◌+◌, ◌-◌, ◌*◌, ◌/◌, ◌≤◌, ◌<◌, ◌≡◌, ◌≢◌, ◌⊎◌, refl, sym, ap, ◌∙◌, subst, true, false,
  Option, none, some, length, ltb, leb, ◌==◌, take, drop, length-take, arith, Bool-cases,
  Option-cases, dec_lt, by_test, inl, inr,
}
use my_sync.Common.Map
use my_sync.Common.Map.{Map, number_keys, ◌=?◌}
use my_sync.Common.Sizes.{length-empty}
use my_sync.Contents.{Bytes}
use my_sync.Contents.Blocks.{length-drop}
use native.Mathlib.Nat.{div-mul-le_self, lt-div-mul-add}
use my_sync.Download.{
  Downloader, started, fetching, leaving, in_phase, spawn, look, fail, save, fetch, block_len,
  current, consume, read_block, read, waits, close, Move, spawns, closes, looks, fetches, leaves,
  reads, move, new_downloader,
}
use my_sync.Download.Counting.{present, Counted, in_phase-contains}
use my_sync.Download.Delivery.{some_injective}
use my_sync.Download.Cover.{
  IsBlock, IsBlock-apart, is_busy, Covers, Lively, spawn-Covers, moved-Covers, saved-Covers,
  left-Covers, within-Covers, past-Covers,
}

module _ {b lost : ℕ} {d : Downloader} (good : Lively b d) (counted : Counted lost d) where
  -- With an error there is nothing to show.
  broken-Lively : {d' : Downloader} → d'.err ≢ none → Lively b d'
  broken-Lively bad = record { closes_badly = λ h. bad; while_fine = λ fine. absurd (bad fine) }

  fine-Lively :
      {d' : Downloader}
      → d'.closed ≡ d.closed
      → d'.err ≡ d.err
      → (Covers b d → Covers b d')
      → Lively b d'
  fine-Lively same_closed same_err keeps = record {
    closes_badly = λ h fine. good.closes_badly (sym same_closed ∙ h) (sym same_err ∙ fine);
    while_fine = λ fine. keeps (good.while_fine (sym same_err ∙ fine));
  }

  spawn-Lively : Lively b (spawn d)
  unfolding spawn
  spawn-Lively = elim (Bool-cases (ltb d.next d.fsize)) [
    | inl more ↦
        rw (spawn, more) (fine-Lively refl refl (λ c. spawn-Covers c (ground (arith, more))))
    | inr over ↦ rw (spawn, over) good
  ]

  look-Lively : (off : ℕ) → Map.contains d.active off ≡ true → Lively b (look d off)
  unfolding look
  look-Lively off there = elim (Option-cases d.err) [
    | inl fine ↦ fine-Lively refl refl (λ c.
        subst
          (λ e. Covers b (record d {
            active = Map.put d.active off (elim e [ none ↦ fetching | some f ↦ leaving ]);
          }))
          (sym fine) (moved-Covers c off fetching there refl))
    | inr (e, bad) ↦ broken-Lively (λ none. cc)
  ]

  fetch-Lively :
      (off : ℕ) (answer : Option Bytes) (e : ℕ)
      → Map.contains d.active off ≡ true
      → Lively b (fetch d off answer e)
  unfolding fetch fail save
  fetch-Lively off none e there = broken-Lively (λ fine. cc)
  fetch-Lively off (some body) e there =
      elim (Bool-cases (ltb (length body) (block_len d.fsize d.block_size off))) [
        | inl less ↦ rw (fetch, less) (broken-Lively (λ fine. cc))
        | inr full ↦
            rw (fetch, full)
              (by_test (Lively b) d.closed (λ shut. broken-Lively (good.closes_badly shut))
                (λ still. fine-Lively refl refl (λ c.
                  saved-Covers c off (take size body) there
                    (ground (arith, length-take size body, full, c.size)))))
      ]
    where
      size : ℕ
      size = block_len d.fsize d.block_size off

  taken :
      (n : ℕ) (p : Bytes)
      → Map.get d.buffers (current d) ≡ some p
      → d.pos < d.fsize
      → Lively b (consume d (current d) p (take (suc n) (drop (d.pos - current d) p)))
  unfolding consume
  taken n p found inside =
      by_test (Lively b) (d.pos + length bytes == current d + length p)
        (λ ends.
          fine-Lively refl refl
            (λ c. past-Covers c (current d) p bytes found at (fits c) (d.held - 1) alone ends))
        (λ more.
          fine-Lively refl refl (λ c. within-Covers c (current d) p bytes found at (fits c) more))
    where
      bytes : Bytes
      bytes = take (suc n) (drop (d.pos - current d) p)

      at : current d ≤ d.pos
      at = div-mul-le_self d.pos d.block_size

      alone : Map.contains d.active (current d) ≡ false
      alone = ground (arith, counted.apart (current d), found)

      fits : Covers b d → length bytes + (d.pos - current d) ≤ length p
      fits c = ground (
        arith,
        length-take (suc n) (drop (d.pos - current d) p),
        length-drop (d.pos - current d) p,
        c.lengths (current d) p found,
        c.size,
        inside,
        lt-div-mul-add {a = d.pos} {b = d.block_size} counted.some_size,
      )

  read-Lively : (n : ℕ) → Lively b (read d n).0
  unfolding read read_block consume
  read-Lively zero = good
  read-Lively (suc n) = elim (Bool-cases (leb d.fsize d.pos)) [
    | inl ends ↦ rw (read, ends) good
    | inr more ↦
        rw (read, more)
          (elim (Option-cases (Map.get d.buffers (current d))) [
            | inl e ↦ rw (read_block, e) good
            | inr (p, e) ↦ rw (read_block, e) (taken n p e (ground (arith, more)))
          ])
  ]

  pub move-Lively : (s : Move) → Lively b (move d s)
  unfolding move close
  move-Lively spawns = spawn-Lively
  move-Lively closes = broken-Lively (elim (Option-cases d.err) [
    | inl e ↦ (λ h. ground (arith, e, h))
    | inr (f, e) ↦ (λ h. ground (arith, e, h))
  ])
  move-Lively (looks off) = elim (Bool-cases (in_phase started (Map.get d.active off))) [
    | inl on ↦ rw on (look-Lively off (in_phase-contains started d.active off on))
    | inr off ↦ rw off good
  ]
  move-Lively (fetches off answer e) =
      elim (Bool-cases (in_phase fetching (Map.get d.active off))) [
        | inl on ↦ rw on (fetch-Lively off answer e (in_phase-contains fetching d.active off on))
        | inr off ↦ rw off good
      ]
  move-Lively (leaves off) = elim (Bool-cases (in_phase leaving (Map.get d.active off))) [
    | inl on ↦ rw on (fine-Lively refl refl (λ c. left-Covers c off on))
    | inr off ↦ rw off good
  ]
  move-Lively (reads n) = read-Lively n

-- A way to go on for a reader that waits for its block.
abbrev pub UnderWay : Downloader → Type 0
UnderWay d = (is_busy (Map.get d.active (current d)) ≡ true) ⊎ ((d.next ≡ current d) × (d.held ≡ 0))

-- What a call that waits has seen.
pub read-waits :
    (d : Downloader) (n : ℕ)
    → (read d n).1 ≡ waits
    → (d.pos < d.fsize) × (Map.get d.buffers (current d) ≡ none) × (d.err ≡ none)
unfolding read read_block
read-waits d zero e = cc
read-waits d (suc n) e = elim (Bool-cases (leb d.fsize d.pos)) [
  | inl ends ↦ cc (rw (read, ends) at e)
  | inr more ↦ elim (Option-cases (Map.get d.buffers (current d))) [
    | inr (p, there) ↦ cc (rw (read, more, there, read_block) at e)
    | inl missing ↦ elim (Option-cases d.err) [
      | inr (f, bad) ↦ cc (rw (read, more, missing, read_block, bad) at e)
      | inl fine ↦ (ground (arith, more), missing, fine)
    ]
  ]
]

module _ {b : ℕ} {d : Downloader} (c : Covers b d) (counted : Counted 0 d) where
  current-IsBlock : IsBlock b (current d)
  current-IsBlock = (d.pos / d.block_size, ap (λ k. d.pos / d.block_size * k) c.size)

  nothing_present : d.next ≤ current d → (off : ℕ) → present d off ≡ false
  nothing_present start off = elim (Bool-cases (present d off)) [
    | inr e ↦ e
    | inl e ↦
        let (at, inside, before) = c.placed off e in
        absurd (
          omega (
            arith,
            IsBlock-apart b off d.next at c.edge before,
            c.ahead off e,
            start,
            div-mul-le_self d.pos d.block_size,
          ))
  ]

  nothing_held : d.next ≤ current d → d.held ≡ 0
  nothing_held start = omega (
    arith,
    counted.count,
    length-empty d.active (λ k. ground (arith, nothing_present start k)),
    length-empty d.buffers (λ k. ground (arith, nothing_present start k)),
  )

  pub waits-UnderWay : d.pos < d.fsize → Map.get d.buffers (current d) ≡ none → UnderWay d
  waits-UnderWay inside missing = elim (dec_lt (current d) d.next) [
    | yes begun ↦
        inl (ground (arith, c.covered inside (current d) current-IsBlock begun close, missing))
    | no ahead ↦ inr (
      omega (arith, ahead, c.behind, div-mul-le_self d.pos d.block_size),
      nothing_held (omega (arith, ahead)),
    )
  ]
    where
      close : d.pos < current d + b
      close = omega (arith, c.size, lt-div-mul-add {a = d.pos} {b = d.block_size} counted.some_size)

pub new_downloader-Lively :
    (fsize b : ℕ) (d : Downloader) → new_downloader fsize b ≡ some d → Lively b d
unfolding new_downloader Map.get
new_downloader-Lively fsize zero d made = cc
new_downloader-Lively fsize (suc b) d made = subst (Lively (suc b)) (some_injective made) (record {
  closes_badly = λ h. cc;
  while_fine = λ fine. record {
    size = refl;
    positive = omega arith;
    edge = (0, omega arith);
    placed = λ off h. cc;
    behind = omega arith;
    ahead = λ off h. cc;
    covered = λ inside off at before close. absurd (omega (arith, before));
    lengths = λ off p h. cc;
  };
})

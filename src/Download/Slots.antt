-- ===== src/Download/Slots.antt =====
-- How many slots a download holds: one for each goroutine and for each buffered block, until `Close`,
-- which gives none back.
use my_sync.Common.{
  ℕ, zero, suc, ◌+◌, ◌≤◌, ◌≡◌, refl, subst, true, some, List, [], ◌∷◌, length, arith, Bool-cases,
  inl, inr,
}
use my_sync.Common.Map
use my_sync.Common.Map.{Map, number_keys, ◌=?◌}
use my_sync.Download.Delivery.{some_injective}
use my_sync.Download.{
  Downloader, close, Move, spawns, closes, looks, fetches, leaves, reads, move, run_moves,
  new_downloader,
}
use my_sync.Download.Counting.{Counted, is_close, none_closes, close-Counted, move-Counted}

pub new_downloader-Counted :
    (fsize b : ℕ) (d : Downloader) → new_downloader fsize b ≡ some d → Counted 0 d
unfolding new_downloader Map.get
new_downloader-Counted fsize zero d made = cc
new_downloader-Counted fsize (suc b) d made = subst (Counted 0) (some_injective made) (record {
  some_size = omega arith;
  count = refl;
  once = tt;
  stored_once = tt;
  apart = λ off h. refl;
  below = λ off h. cc;
})

pub run_open-Counted :
    (d : Downloader) (steps : List Move)
    → Counted 0 d
    → none_closes steps ≡ true
    → Counted 0 (run_moves d steps)
unfolding run_moves
run_open-Counted d [] good h = good
run_open-Counted d (s ∷ steps) good h =
    run_open-Counted (move d s) steps (move-Counted good s (ground (arith, h))) (ground (arith, h))

-- Slots that are lost stay lost.
run_lost-Counted :
    (k lost : ℕ) (d : Downloader) (steps : List Move)
    → k ≤ lost
    → Counted lost d
    → k ≤ (run_moves d steps).held
unfolding run_moves
run_lost-Counted k lost d [] h good = omega (arith, good.count)
run_lost-Counted k lost d (s ∷ steps) h good = elim (Bool-cases (is_close s)) [
  | inr other ↦ run_lost-Counted k lost (move d s) steps h (move-Counted good s other)
  | inl shut ↦
      run_lost-Counted k (length d.buffers + lost) (move d s) steps (omega (arith, h))
        (closed_by s shut)
]
  where
    closed_by : (s : Move) → is_close s ≡ true → Counted (length d.buffers + lost) (move d s)
    closed_by closes e = close-Counted good
    closed_by spawns e = cc
    closed_by (looks off) e = cc
    closed_by (leaves off) e = cc
    closed_by (reads n) e = cc
    closed_by (fetches off answer f) e = cc

-- In whatever order the steps of a download are taken: before `Close` it holds one slot for each
-- goroutine that has not ended and one for each block that waits to be read, and none beside. When
-- it is closed, it keeps the slots of the blocks that were not read for ever, whatever happens
-- afterwards.
pub run_moves-slots :
    (fsize b : ℕ) (d : Downloader) (steps later : List Move)
    → new_downloader fsize b ≡ some d
    → none_closes steps ≡ true
    → let d' = run_moves d steps in
      (d'.held ≡ length d'.active + length d'.buffers)
      × (length d'.buffers ≤ (run_moves (close d') later).held)
run_moves-slots fsize b d steps later made h =
    let good : Counted 0 (run_moves d steps) =
      run_open-Counted d steps (new_downloader-Counted fsize b d made) h in
    (
      omega (arith, good.count),
      run_lost-Counted (length (run_moves d steps).buffers) (length (run_moves d steps).buffers + 0)
          (close (run_moves d steps)) later (omega arith) (close-Counted good),
    )

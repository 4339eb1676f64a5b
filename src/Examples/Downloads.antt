-- ===== src/Examples/Downloads.antt =====
-- An object of three bytes, fetched in blocks of two.
use my_sync.Common.{
  ◌+◌, ◌≤◌, ◌≡◌, ◌⊎◌, refl, false, none, some, List, [], ◌∷◌, take, length, ℕ_discrete,
}
use my_sync.Contents.{Bytes}
use my_sync.Download.{
  Downloader, Move, spawns, looks, fetches, leaves, reads, run_moves, read, eof, close,
  new_downloader, current, move, spawn, look, fetch, save,
}
use my_sync.Common.Map
use my_sync.Download.Delivery.{run_moves-delivered}
use my_sync.Download.Slots.{run_moves-slots}
use my_sync.Download.Notify.{Act, moves, signals, done_by, act, run_acts, new_session}
use my_sync.Download.Notify.Wakeups.{ToWake, run_acts-asleep}

abbrev three_bytes : Bytes
three_bytes = 7 ∷ 8 ∷ 9 ∷ []

abbrev in_twos : Downloader
in_twos = record {
  fsize = 3;
  block_size = 2;
  next = 0;
  held = 0;
  active = [];
  buffers = [];
  closed = false;
  err = none;
  pos = 0;
  delivered = [];
}

-- The second block comes first.
abbrev fetching_steps : List Move
fetching_steps = spawns ∷ spawns ∷ looks 2 ∷ looks 0 ∷ fetches 2 (some (9 ∷ [])) 0 ∷ reads 1 ∷ []

abbrev whole_steps : List Move
whole_steps =
    spawns
    ∷ spawns
    ∷ looks 2
    ∷ looks 0
    ∷ fetches 2 (some (9 ∷ [])) 0
    ∷ fetches 0 (some (7 ∷ 8 ∷ [])) 0
    ∷ reads 1
    ∷ reads 5
    ∷ reads 5
    ∷ []

whole_steps_read : (run_moves in_twos whole_steps).delivered ≡ 7 ∷ 8 ∷ 9 ∷ []
unfolding run_moves Map.get Map.put ℕ_discrete
whole_steps_read = refl

run_moves-delivered_example :
    ((run_moves in_twos whole_steps).delivered
      ≡ take (run_moves in_twos whole_steps).pos three_bytes)
    × ((read (run_moves in_twos whole_steps) 4).1 ≡ eof
        → (run_moves in_twos whole_steps).delivered ≡ three_bytes)
unfolding new_downloader
run_moves-delivered_example =
    run_moves-delivered three_bytes 2 in_twos whole_steps 4 refl
      (tt, (tt, (tt, (tt, (refl, (refl, (tt, (tt, (tt, tt)))))))))

run_moves-slots_example :
    ((run_moves in_twos fetching_steps).held
      ≡ length (run_moves in_twos fetching_steps).active
        + length (run_moves in_twos fetching_steps).buffers)
    × (length (run_moves in_twos fetching_steps).buffers
        ≤ (run_moves (close (run_moves in_twos fetching_steps)) (leaves 0 ∷ [])).held)
unfolding new_downloader
run_moves-slots_example = run_moves-slots 3 2 in_twos fetching_steps (leaves 0 ∷ []) refl refl

-- The reader sleeps while the first block is fetched.
abbrev sleeping_acts : List Act
sleeping_acts =
    moves spawns
    ∷ moves spawns
    ∷ moves (looks 2)
    ∷ moves (reads 4)
    ∷ moves (fetches 2 (some (9 ∷ [])) 0)
    ∷ signals
    ∷ moves (reads 4)
    ∷ []

run_acts-asleep_example :
    ToWake (run_acts (new_session in_twos) sleeping_acts)
    ⊎ (((run_acts (new_session in_twos) sleeping_acts).download.next
          ≡ current (run_acts (new_session in_twos) sleeping_acts).download)
        × ((run_acts (new_session in_twos) sleeping_acts).download.held ≡ 0))
unfolding new_downloader run_acts act move spawn look fetch save read done_by Map.get Map.put
    Map.delete ℕ_discrete
run_acts-asleep_example = run_acts-asleep 3 2 in_twos sleeping_acts refl refl refl

-- ===== src/Download/Notify.antt =====
-- The condition variable of a download: a `Read` that finds nothing sleeps in `notify.Wait`, and every
-- goroutine of a block calls `notify.Signal` as the last that it does.
pub mod Wakeups
use my_sync.Common.{
  ℕ, zero, suc, ◌+◌, ◌-◌, ◌≤◌, ◌<◌, ◌≡◌, ◌∙◌, sym, subst, ◌⊎◌, refl, Bool, true, false, not, ◌&&◌,
  Option, none, some, List, [], ◌∷◌, length, ltb, leb, ◌==◌, is_empty, take, arith, if◌then◌else◌,
  Bool-cases, Option-cases, inl, inr, by_test,
}
use my_sync.Common.Map
use my_sync.Common.Map.{Map, number_keys}
use my_sync.Contents.{Bytes}
use my_sync.Download.{
  Downloader, Phase, started, fetching, leaving, in_phase, spawn, look, fail, save, fetch, leave,
  block_len, current, ReadResult, got, eof, waits, broken, read, read_block, Move, spawns, closes,
  looks, fetches, leaves, reads, move, run_moves, new_downloader,
}
use my_sync.Download.Counting.{Counted, is_close, move-Counted, in_phase-contains}
use my_sync.Download.Slots.{new_downloader-Counted}
use my_sync.Download.Cover.{Lively, is_busy}
use my_sync.Download.Waiting.{
  UnderWay, read-waits, waits-UnderWay, move-Lively, new_downloader-Lively,
}

-- `asleep` is a `Read` in `notify.Wait`, of which a download has one at most; `to_signal` counts the
-- goroutines that are done but for their call of `Signal`.
pub record Session : Type 0 where
  pub download : Downloader
  pub asleep : Bool
  pub to_signal : ℕ

abbrev pub is_wait : ReadResult → Bool
is_wait waits = true
is_wait _ = false

-- The goroutine of a block has nothing left to do but to signal: its block is saved, or it has
-- given its slot back.
unfoldable pub done_by : Downloader → Move → Bool
done_by d (fetches off answer e) =
    Map.contains d.active off && not (Map.contains (move d (fetches off answer e)).active off)
done_by d (leaves off) =
    Map.contains d.active off && not (Map.contains (move d (leaves off)).active off)
done_by d spawns = false
done_by d closes = false
done_by d (looks off) = false
done_by d (reads n) = false

-- A step of the download, or a call of `Signal`.
pub data Act : Type 0 where
  moves : Move → Act
  signals : Act

-- The test of `Read` and its `Wait` are one step, for `Wait` gives the lock back only when the caller
-- is asleep. A sleeping `Read` does nothing; woken it tests again.
unfoldable pub act : Session → Act → Session
unfolding done_by
act x signals =
    if x.to_signal == 0 then x else record x { asleep = false; to_signal = x.to_signal - 1 }
act x (moves (reads n)) =
    if x.asleep
    then x
    else record x { download = (read x.download n).0; asleep = is_wait (read x.download n).1 }
act x (moves s) = record x {
  download = move x.download s;
  to_signal = if done_by x.download s then suc x.to_signal else x.to_signal;
}

unfoldable pub run_acts : Session → List Act → Session
unfolding act
run_acts x [] = x
run_acts x (a ∷ acts) = run_acts (act x a) acts

abbrev pub new_session : Downloader → Session
new_session d = record { download = d; asleep = false; to_signal = 0 }

abbrev pub is_closing : Act → Bool
is_closing (moves s) = is_close s
is_closing signals = false

abbrev pub no_close : List Act → Bool
no_close [] = true
no_close (a ∷ acts) = not (is_closing a) && no_close acts

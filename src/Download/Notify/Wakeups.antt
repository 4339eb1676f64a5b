-- ===== src/Download/Notify/Wakeups.antt =====
-- A `Read` does not sleep for ever by a missing signal.
use my_sync.Common.{
  ℕ, zero, suc, ◌≤◌, ◌<◌, ◌≡◌, ◌∙◌, sym, subst, ◌⊎◌, refl, true, false, Option, none, some, List,
  [], ◌∷◌, length, ltb, leb, ◌==◌, is_empty, arith, Bool-cases, Option-cases, inl, inr, by_test,
}
use my_sync.Common.Map
use my_sync.Common.Map.{Map, number_keys}
use my_sync.Contents.{Bytes}
use my_sync.Download.{
  Downloader, Phase, started, fetching, leaving, in_phase, spawn, look, fail, save, fetch, leave,
  block_len, current, ReadResult, got, eof, waits, broken, read, read_block, Move, spawns, closes,
  looks, fetches, leaves, reads, move, new_downloader,
}
use my_sync.Download.Counting.{Counted, is_close, move-Counted, in_phase-contains}
use my_sync.Download.Slots.{new_downloader-Counted}
use my_sync.Download.Cover.{Lively, is_busy}
use my_sync.Download.Waiting.{read-waits, waits-UnderWay, move-Lively, new_downloader-Lively}
use my_sync.Download.Notify.{
  Session, is_wait, done_by, Act, moves, signals, act, run_acts, new_session, is_closing, no_close,
}

-- Some goroutine of a block is yet to signal.
abbrev pub ToWake : Session → Type 0
ToWake x = (1 ≤ x.to_signal) ⊎ (is_empty x.download.active ≡ false)

-- What a `Read` tests before it sleeps.
abbrev Blocked : Downloader → Type 0
Blocked d = (d.pos < d.fsize) × (Map.get d.buffers (current d) ≡ none) × (d.err ≡ none)

abbrev Watched : Session → Type 0
Watched x = x.asleep ≡ true → ToWake x ⊎ Blocked x.download

-- A step that is no `Read` and no `Close` leaves a goroutine that is yet to signal, or it changes
-- nothing.
abbrev Stirs : Session → Move → Type 0
Stirs x s = ToWake (act x (moves s)) ⊎ (move x.download s ≡ x.download)

only_waits : (r : ReadResult) → is_wait r ≡ true → r ≡ waits
only_waits waits h = refl
only_waits (got p) h = cc
only_waits eof h = cc
only_waits (broken e) h = cc

-- A `Read` that finds nothing changes nothing.
unread : (d : Downloader) (n : ℕ) → (read d n).1 ≡ waits → (read d n).0 ≡ d
unfolding read read_block
unread d zero e = cc
unread d (suc n) e = elim (Bool-cases (leb d.fsize d.pos)) [
  | inl ends ↦ cc (rw (read, ends) at e)
  | inr more ↦ elim (Option-cases (Map.get d.buffers (current d))) [
    | inr (p, there) ↦ cc (rw (read, more, there, read_block) at e)
    | inl missing ↦ rw (read, more, missing, read_block) refl
  ]
]

module _ (x : Session) where
  spawn-Stirs : Stirs x spawns
  unfolding act move spawn Map.put
  spawn-Stirs = elim (Bool-cases (ltb x.download.next x.download.fsize)) [
    | inl more ↦ inl (inr (rw (act, move, spawn, more) refl))
    | inr over ↦ inr (rw (move, spawn, over) refl)
  ]

  look-Stirs : (off : ℕ) → Stirs x (looks off)
  unfolding act move look Map.put
  look-Stirs off = elim (Bool-cases (in_phase started (Map.get x.download.active off))) [
    | inl on ↦ inl (inr (rw (act, move, look, on) refl))
    | inr idle ↦ inr (rw (move, idle) refl)
  ]

  leave-Stirs : (off : ℕ) → Stirs x (leaves off)
  unfolding act move leave done_by
  leave-Stirs off = elim (Bool-cases (in_phase leaving (Map.get x.download.active off))) [
    | inl on ↦ inl (
        inl (
          ground (
            arith,
            on,
            in_phase-contains leaving x.download.active off on,
            Map.get-delete x.download.active off off,
          )))
    | inr idle ↦ inr (rw (move, idle) refl)
  ]

  fetch-Stirs : (off : ℕ) (answer : Option Bytes) (e : ℕ) → Stirs x (fetches off answer e)
  unfolding act move fetch fail save done_by Map.put
  fetch-Stirs off answer e = elim (Bool-cases (in_phase fetching (Map.get x.download.active off))) [
    | inr idle ↦ inr (rw (move, idle) refl)
    | inl on ↦ fetched answer on
  ]
    where
      fetched :
          (answer : Option Bytes)
          → in_phase fetching (Map.get x.download.active off) ≡ true
          → Stirs x (fetches off answer e)
      fetched none on = inl (inr (rw (act, move, fetch, fail, on) refl))
      fetched (some body) on =
          elim (Bool-cases
            (ltb (length body) (block_len x.download.fsize x.download.block_size off))) [
              | inl less ↦ inl (inr (rw (act, move, fetch, fail, on, less) refl))
              | inr full ↦ elim (Bool-cases x.download.closed) [
                | inl shut ↦ inl (inr (rw (act, move, fetch, save, on, full, shut) refl))
                | inr still ↦ inl (
                    inl (
                      ground (
                        arith,
                        on,
                        full,
                        still,
                        in_phase-contains fetching x.download.active off on,
                        Map.get-delete x.download.active off off,
                      )))
              ]
            ]

  -- The count of those that are to signal does not fall.
  to_signal_kept : (s : Move) → x.to_signal ≤ (act x (moves s)).to_signal
  unfolding act
  to_signal_kept (reads n) = ground arith
  to_signal_kept spawns = omega arith
  to_signal_kept closes = omega arith
  to_signal_kept (looks off) = omega arith
  to_signal_kept (fetches off answer e) = ground arith
  to_signal_kept (leaves off) = ground arith

  -- What a step does to a sleeping `Read`.
  after_stir :
      (s : Move)
      → (act x (moves s)).download ≡ move x.download s
      → (act x (moves s)).asleep ≡ x.asleep
      → Stirs x s
      → Watched x
      → Watched (act x (moves s))
  after_stir s same_download same_asleep (inl wakes) h sleeps = inl wakes
  after_stir s same_download same_asleep (inr idle) h sleeps = elim (h (sym same_asleep ∙ sleeps)) [
    | inr blocked ↦ inr (subst Blocked (sym (same_download ∙ idle)) blocked)
    | inl (inl more) ↦ inl (inl (omega (arith, more, to_signal_kept s)))
    | inl (inr busy) ↦
        inl (inr (subst (λ d. is_empty d.active ≡ false) (sym (same_download ∙ idle)) busy))
  ]

  read-Watched : (n : ℕ) → Watched x → Watched (act x (moves (reads n)))
  unfolding act
  read-Watched n h =
      by_test Watched x.asleep (λ _. h)
        (λ _ e. inr (
          subst Blocked (sym (unread x.download n (waited e)))
            (read-waits x.download n (waited e))))
    where
      waited : is_wait (read x.download n).1 ≡ true → (read x.download n).1 ≡ waits
      waited = only_waits (read x.download n).1

  act-Watched : (a : Act) → is_closing a ≡ false → Watched x → Watched (act x a)
  unfolding act
  act-Watched signals fine h = elim (Bool-cases (x.to_signal == 0)) [
    | inl none_left ↦ rw (act, none_left) h
    | inr some_left ↦ rw (act, some_left) (λ e. cc)
  ]
  act-Watched (moves spawns) fine h = after_stir spawns refl refl spawn-Stirs h
  act-Watched (moves closes) fine h = cc
  act-Watched (moves (looks off)) fine h = after_stir (looks off) refl refl (look-Stirs off) h
  act-Watched (moves (fetches off answer e)) fine h =
      after_stir (fetches off answer e) refl refl (fetch-Stirs off answer e) h
  act-Watched (moves (leaves off)) fine h = after_stir (leaves off) refl refl (leave-Stirs off) h
  act-Watched (moves (reads n)) fine h = read-Watched n h

occupied : (m : Map ℕ Phase) (k : ℕ) → is_busy (Map.get m k) ≡ true → is_empty m ≡ false
unfolding Map.get
occupied [] k h = cc
occupied (kv ∷ m) k h = refl

-- What a session without a `Close` keeps.
abbrev Steady : ℕ → Session → Type 0
Steady b x = Lively b x.download × Counted 0 x.download × Watched x

-- What the steps of a download keep of it, those of a session do.
after_act :
    (x : Session) (P : Downloader → Type 0)
    → P x.download
    → ((s : Move) → is_close s ≡ false → P (move x.download s))
    → (a : Act) → is_closing a ≡ false
    → P (act x a).download
unfolding act move
after_act x P h keeps signals fine =
    by_test (λ (x : Session). P x.download) (x.to_signal == 0) (λ _. h) (λ _. h)
after_act x P h keeps (moves (reads n)) fine =
    by_test (λ (x : Session). P x.download) x.asleep (λ _. h) (λ _. keeps (reads n) refl)
after_act x P h keeps (moves spawns) fine = keeps spawns refl
after_act x P h keeps (moves closes) fine = cc
after_act x P h keeps (moves (looks off)) fine = keeps (looks off) refl
after_act x P h keeps (moves (fetches off answer e)) fine = keeps (fetches off answer e) refl
after_act x P h keeps (moves (leaves off)) fine = keeps (leaves off) refl

act-Steady :
    (b : ℕ) (x : Session) (a : Act) → is_closing a ≡ false → Steady b x → Steady b (act x a)
act-Steady b x a fine (good, counted, watched) = (
  after_act x (Lively b) good (λ s h. move-Lively good counted s) a fine,
  after_act x (Counted 0) counted (λ s h. move-Counted counted s h) a fine,
  act-Watched x a fine watched,
)

run_acts-Steady :
    (b : ℕ) (x : Session) (acts : List Act)
    → no_close acts ≡ true
    → Steady b x
    → Steady b (run_acts x acts)
unfolding run_acts
run_acts-Steady b x [] fine h = h
run_acts-Steady b x (a ∷ acts) fine h =
    run_acts-Steady b (act x a) acts (ground (arith, fine))
      (act-Steady b x a (ground (arith, fine)) h)

-- No wake-up is lost. In whatever order the steps of a download and the calls of `Signal` are taken,
-- without a `Close`: where a `Read` sleeps in `Wait`, some goroutine of a block has yet to call
-- `Signal`, after which the `Read` tests again, or the block that it wants is the next that `download`
-- starts, and this download holds none of the slots that it has to wait for.
pub run_acts-asleep :
    (fsize b : ℕ) (d : Downloader) (acts : List Act)
    → new_downloader fsize b ≡ some d
    → no_close acts ≡ true
    → (run_acts (new_session d) acts).asleep ≡ true
    → let x = run_acts (new_session d) acts in
      ToWake x ⊎ ((x.download.next ≡ current x.download) × (x.download.held ≡ 0))
run_acts-asleep fsize b d acts made fine sleeps =
    let x : Session = run_acts (new_session d) acts in
    let (good, counted, watched) =
      run_acts-Steady b (new_session d) acts fine
        (new_downloader-Lively fsize b d made, new_downloader-Counted fsize b d made, (λ e. cc)) in
    elim (watched sleeps) [
      | inl wakes ↦ inl wakes
      | inr (inside, missing, no_error) ↦
          elim (waits-UnderWay (good.while_fine no_error) counted inside missing) [
            | inr next ↦ inr next
            | inl busy ↦ inl (inr (occupied x.download.active (current x.download) busy))
          ]
    ]

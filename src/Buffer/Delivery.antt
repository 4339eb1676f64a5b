-- ===== src/Buffer/Delivery.antt =====
-- What becomes of the records of a buffer.
use my_sync.Common.{
  ℕ, zero, suc, ◌+◌, ◌≡◌, refl, Bool, true, some, List, [], ◌∷◌, ◌++◌, if◌then◌else◌, arith,
  Option-cases, inl, inr,
}
use my_sync.Gate.{SyncRecord}
use my_sync.Buffer.{
  GateBuffer, Loop, add, take_batch, save_batch, take_at, Step, adds, flushes, saves, loop_flushes,
  loop_saves, close_ends, ticks, receives, stops, close_begins, waiting, flushing, ended, storing,
  stored, step, run_steps,
}

-- The records that are added before the buffer is closed.
abbrev pub accepted : Bool → List Step → List SyncRecord
accepted closed [] = []
accepted closed (adds rec ∷ steps) =
    if closed then accepted closed steps else rec ∷ accepted closed steps
accepted closed (close_begins ∷ steps) = accepted true steps
accepted closed (_ ∷ steps) = accepted closed steps

-- How many records pass a test.
module _ (test : SyncRecord → Bool) where
  unfoldable pub count : List SyncRecord → ℕ
  count [] = 0
  count (rec ∷ recs) = let n = count recs in if test rec then suc n else n

  unfoldable count_all : List (List SyncRecord) → ℕ
  count_all [] = 0
  count_all (batch ∷ batches) = count batch + count_all batches

  -- The records of a buffer, wherever they are: saved, dropped with a batch that was refused, taken
  -- by a flush, or waiting.
  unfoldable pub tally : GateBuffer → ℕ
  unfolding stored count_all
  tally b =
      count b.handed
      + (count b.lost + (count_all b.saving + (count (stored b.loop) + count b.batch)))

  count-append :
      (recs others : List SyncRecord) → count (recs ++ others) ≡ count recs + count others
  unfolding count
  count-append [] others = omega arith
  count-append (rec ∷ recs) others = ground (arith, count-append recs others)

  count_all-snoc :
      (batches : List (List SyncRecord)) (batch : List SyncRecord)
      → count_all (batches ++ (batch ∷ [])) ≡ count_all batches + count batch
  unfolding count_all
  count_all-snoc [] batch = omega arith
  count_all-snoc (other ∷ batches) batch = omega (arith, count_all-snoc batches batch)

  count_all-take_at :
      (n : ℕ) (batches : List (List SyncRecord)) (found : List SyncRecord)
      (rest : List (List SyncRecord))
      → take_at n batches ≡ some (found, rest)
      → count_all batches ≡ count found + count_all rest
  unfolding take_at count_all
  count_all-take_at n [] found rest e = cc
  count_all-take_at zero (batch ∷ batches) found rest e = ground arith
  count_all-take_at (suc n) (batch ∷ batches) found rest e =
      elim (Option-cases (take_at n batches)) [
        | inl missing ↦ cc (rw (take_at, missing) at e)
        | inr ((at, others), picked) ↦
            ground (arith, count_all-take_at n batches at others picked, rw (take_at, picked) at e)
      ]

  tally-take_batch : (b : GateBuffer) → tally (take_batch b) ≡ tally b
  unfolding tally take_batch count
  tally-take_batch b = ground (arith, count_all-snoc b.saving b.batch)

  tally-save_batch :
      (b : GateBuffer) (batch : List SyncRecord) (saved : Bool)
      → tally (save_batch b batch saved) ≡ tally b + count batch
  unfolding tally save_batch
  tally-save_batch b batch saved =
      ground (arith, count-append b.handed batch, count-append b.lost batch)

  -- The second half of the loop's flush.
  tally-loop_saves :
      (b : GateBuffer) (l : Loop) (saved : Bool)
      → tally (step (record b { loop = l }) (loop_saves saved)) ≡ tally (record b { loop = l })
  unfolding step tally stored count
  tally-loop_saves b waiting saved = refl
  tally-loop_saves b flushing saved = refl
  tally-loop_saves b ended saved = refl
  tally-loop_saves b (storing batch) saved =
      ground (arith, tally-save_batch (record b { loop = waiting }) batch saved)

  tally-step :
      (b : GateBuffer) (s : Step) → tally (step b s) ≡ tally b + count (accepted b.closed (s ∷ []))
  unfolding tally step add count stored count_all
  tally-step b (adds rec) = ground (arith, count-append b.batch (rec ∷ []))
  tally-step b flushes = ground (arith, tally-take_batch b)
  tally-step b (saves n saved) = elim (Option-cases (take_at n b.saving)) [
    | inl missing ↦ ground (arith, missing)
    | inr ((batch, rest), picked) ↦ ground (
      arith,
      picked,
      tally-save_batch (record b { saving = rest }) batch saved,
      count_all-take_at n b.saving batch rest picked,
    )
  ]
  tally-step b ticks = ground arith
  tally-step b receives = ground arith
  tally-step b loop_flushes = ground arith
  tally-step b (loop_saves saved) = ground (arith, tally-loop_saves b b.loop saved)
  tally-step b stops = ground arith
  tally-step b close_begins = ground arith
  tally-step b close_ends = ground (arith, tally-take_batch b)

  loop_saves-closed :
      (b : GateBuffer) (l : Loop) (saved : Bool)
      → (step (record b { loop = l }) (loop_saves saved)).closed ≡ b.closed
  unfolding step save_batch
  loop_saves-closed b waiting saved = refl
  loop_saves-closed b flushing saved = refl
  loop_saves-closed b ended saved = refl
  loop_saves-closed b (storing batch) saved = refl

  count-accepted :
      (b : GateBuffer) (s : Step) (steps : List Step)
      → count (accepted b.closed (s ∷ steps))
        ≡ count (accepted b.closed (s ∷ [])) + count (accepted (step b s).closed steps)
  unfolding step add take_batch save_batch count
  count-accepted b (adds rec) steps = ground arith
  count-accepted b flushes steps = ground arith
  count-accepted b (saves n saved) steps = elim (Option-cases (take_at n b.saving)) [
    | inl missing ↦ ground (arith, missing)
    | inr ((batch, rest), picked) ↦ ground (arith, picked)
  ]
  count-accepted b ticks steps = ground arith
  count-accepted b receives steps = ground arith
  count-accepted b loop_flushes steps = ground arith
  count-accepted b (loop_saves saved) steps = ground (arith, loop_saves-closed b b.loop saved)
  count-accepted b stops steps = ground arith
  count-accepted b close_begins steps = ground arith
  count-accepted b close_ends steps = ground arith

  -- No record is lost and none is handed over twice, whatever the interleaving of the adds, the
  -- flushes with their saves, the background loop and the closing: for any test of records, those
  -- that pass it among the records saved, dropped with a batch that the database refused, taken by a
  -- flush that has not ended, and still waiting are as many as those there before and those added
  -- before the buffer was closed. The order of the batches is not kept: two flushes save at once.
  pub run_steps-accepted :
      (b : GateBuffer) (steps : List Step)
      → tally (run_steps b steps) ≡ tally b + count (accepted b.closed steps)
  unfolding run_steps count
  run_steps-accepted b [] = omega arith
  run_steps-accepted b (s ∷ steps) =
      omega (arith, run_steps-accepted (step b s) steps, tally-step b s, count-accepted b s steps)

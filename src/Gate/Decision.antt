-- ===== src/Gate/Decision.antt =====
-- What the two gates decide together.
use my_sync.Common.{
  ℕ, ◌+◌, ◌*◌, ◌≤◌, ◌<◌, ◌≡◌, ◌↔◌, refl, Bool, true, false, Option, none, some, arith,
}
use my_sync.Common.Int.{ℤ}
use my_sync.Common.Key.{Key}
use my_sync.Object.{Object, mtime, second}
use my_sync.Gate.{
  SyncRecord, success, gate_skip, gate_need_second_gate, action_send, truncate, first_gate,
  second_gate, record_success, record_failure, record_skip,
}

-- The first gate skips an object exactly when nothing forces it, its record says that an earlier
-- run succeeded, and its mtime is, in whole seconds, no later than the recorded one.
pub first_gate_skips :
    (obj : Object) (rec : SyncRecord) (force : Bool)
    → (first_gate obj (some rec) force ≡ gate_skip) ↔ (
        (force ≡ false)
        × (rec.status ≡ success)
        × (truncate (mtime obj) ≤ truncate rec.source_mtime))
unfolding first_gate
first_gate_skips obj rec force = (λ h. ground arith, λ h. ground arith)

-- The second gate sends an object that the destination lacks, and one that an update is forced
-- on. Otherwise it sends exactly those that are strictly newer than the destination's, whatever
-- their sizes.
pub second_gate_lem :
    (obj dst : Object) (force : Bool)
    → (second_gate obj none force ≡ action_send)
      × (second_gate obj (some dst) true ≡ action_send)
      × ((second_gate obj (some dst) false ≡ action_send) ↔ (mtime dst < mtime obj))
unfolding second_gate
second_gate_lem obj dst force = (refl, refl, (λ h. ground arith, λ h. ground arith))

-- A record as it is read back: `column` is what the database makes of a time.
abbrev pub stored : (ℕ → ℕ) → SyncRecord → SyncRecord
stored column rec = record rec { source_mtime = column rec.source_mtime }

-- An object that was copied, and whose record the database keeps without moving its time to an
-- earlier second or by more than one second, is skipped by the next run's first gate as long as
-- it is unchanged. Changed two seconds later or more, it passes. After a failure or a skip it
-- passes too.
pub first_gate-stored :
    (column : ℕ → ℕ) (obj changed : Object) (err : Option Key) (target_size : ℤ)
    → ((t : ℕ) → truncate t ≤ truncate (column t))
    → ((t : ℕ) → truncate (column t) ≤ truncate t + second)
    → mtime obj + 2 * second ≤ mtime changed
    → (first_gate obj (some (stored column (record_success obj target_size))) false ≡ gate_skip)
      × (first_gate changed (some (stored column (record_success obj target_size))) false
          ≡ gate_need_second_gate)
      × (first_gate obj (some (stored column (record_failure obj err target_size))) false
          ≡ gate_need_second_gate)
      × (first_gate obj (some (stored column (record_skip obj target_size))) false
          ≡ gate_need_second_gate)
unfolding first_gate record_success record_failure record_skip
first_gate-stored column obj changed err target_size low high later =
    (ground (arith, low (mtime obj)), ground (arith, high (mtime obj)), refl, refl)

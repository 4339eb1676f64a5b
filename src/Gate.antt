-- ===== src/Gate.antt =====
-- The two gates of pkg/sync/gate.go and the record of pkg/sync/db/gate_record.go.
pub mod Decision
use my_sync.Common.{
  ℕ, ◌/◌, ◌*◌, Bool, true, false, not, ◌&&◌, ◌||◌, Option, none, some, ltb, leb, ◌==◌,
  if◌then◌else◌, [], length, take,
}
use my_sync.Common.Int.{ℤ, pos, eqb_ℤ}
use my_sync.Common.Key.{Key, key_eq}
use my_sync.Object.{Object, key, mtime, size, second}

-- The values of the status column.
pub data Status : Type 0 where
  success failed skipped : Status
  other : Key → Status

-- `SyncRecordV2`, without the time of its last update, which the database writes.
pub record SyncRecord : Type 0 where
  pub key : Key
  pub source_mtime : ℕ
  pub source_size : ℤ
  pub target_size : ℤ
  pub diff : Bool
  pub status : Status
  pub error_msg : Key

-- `GateResult`
pub data GateResult : Type 0 where
  gate_skip gate_need_second_gate gate_missing : GateResult

-- `SecondGateAction`
pub data SecondGateAction : Type 0 where
  action_send action_skip : SecondGateAction

-- `Truncate(time.Second)`
abbrev pub truncate : ℕ → ℕ
truncate t = t / second * second

abbrev pub is_success : Status → Bool
is_success success = true
is_success _ = false

-- `firstGate`. `After` is `<` from the other side.
unfoldable pub first_gate : Object → Option SyncRecord → Bool → GateResult
first_gate obj rec true = gate_need_second_gate
first_gate obj none false = gate_missing
first_gate obj (some rec) false =
    if not (is_success rec.status)
    then gate_need_second_gate
    else if not (ltb (truncate rec.source_mtime) (truncate (mtime obj)))
    then gate_skip
    else gate_need_second_gate

-- `secondGate`
unfoldable pub second_gate : Object → Option Object → Bool → SecondGateAction
second_gate obj none force_update = action_send
second_gate obj (some dst) force_update =
    if force_update
    then action_send
    else if ltb (mtime obj) (mtime dst) || mtime dst == mtime obj
    then action_skip
    else action_send

-- The record that `RecordSuccess` adds.
unfoldable pub record_success : Object → ℤ → SyncRecord
record_success obj target_size = record {
  key = key obj;
  source_mtime = mtime obj;
  source_size = size obj;
  target_size = target_size;
  diff = false;
  status = success;
  error_msg = [];
}

abbrev error_limit : ℕ
error_limit = 2048

-- The record that `RecordFailure` adds, for the error's text if there is an error.
unfoldable pub record_failure : Object → Option Key → ℤ → SyncRecord
record_failure obj err target_size = record {
  key = key obj;
  source_mtime = mtime obj;
  source_size = size obj;
  target_size = target_size;
  diff = false;
  status = failed;
  error_msg = elim err [
    | none ↦ []
    | some msg ↦ if ltb error_limit (length msg) then take error_limit msg else msg
  ];
}

-- The record that `RecordSkip` adds.
unfoldable pub record_skip : Object → ℤ → SyncRecord
record_skip obj target_size = record {
  key = key obj;
  source_mtime = mtime obj;
  source_size = size obj;
  target_size = target_size;
  diff = not (eqb_ℤ target_size (pos 0)) && not (eqb_ℤ (size obj) target_size);
  status = skipped;
  error_msg = [];
}

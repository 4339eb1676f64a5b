-- ===== src/Produce/Protection.antt =====
-- What the gates protect at the destination.
use my_sync.Common.{◌≤◌, ◌≡◌, ◌⊎◌, true, false, Option, some, arith}
use my_sync.Common.Key.{key_lt_irrefl}
use my_sync.Object.{Object, key, size, mtime}
use my_sync.Gate.{SyncRecord, second_gate, first_gate, success, truncate}
use my_sync.Produce.Compare.{
  Env, skip, skip_recorded, use_first_gate, common_verdict, gated_verdict,
}
use my_sync.Produce.{verdict_of}

-- With the gate and without `--force-update`, a source object whose destination object is at least
-- as new is skipped, whatever the sizes, the database's record and the other options are.
pub verdict_of-protects :
    (env : Env) (o d : Object) (rec : Option SyncRecord)
    → env.gate ≡ true
    → env.config.force_update ≡ false
    → key o ≡ key d
    → mtime o ≤ mtime d
    → (verdict_of env o rec (some d) ≡ skip)
      ⊎ (verdict_of env o rec (some d) ≡ skip_recorded (size d))
unfolding verdict_of common_verdict gated_verdict second_gate
verdict_of-protects env o d rec gated soft same older =
    ground (arith, gated, soft, same, older, key_lt_irrefl (key d))

-- With the first gate in use, a source object that an earlier run has copied is skipped as long as
-- its mtime is, in whole seconds, no later than the recorded one, whether the destination has it
-- or not.
pub verdict_of-known :
    (env : Env) (o : Object) (rec : SyncRecord) (d : Option Object)
    → use_first_gate env ≡ true
    → rec.status ≡ success
    → truncate (mtime o) ≤ truncate rec.source_mtime
    → verdict_of env o (some rec) d ≡ skip
unfolding verdict_of first_gate use_first_gate
verdict_of-known env o rec d used copied unchanged = ground (arith, used, copied, unchanged)

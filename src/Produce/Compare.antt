-- ===== src/Produce/Compare.antt =====
-- The decisions of `produce` about one source object. None of them reads what changes during a
-- run, so they are functions of the options and the two objects.
use my_sync.Common.{Bool, not, ◌&&◌, ◌||◌, none, some, ltb, if◌then◌else◌}
use my_sync.Common.Int.{ℤ, pos, eqb_ℤ}
use my_sync.Common.Key.{Key}
use my_sync.Config.{Config}
use my_sync.Object.{
  Object, size, mtime, is_dir, need_copy_perms, mark_checksum, mark_delete_src, mark_copy_perms,
  whole_seconds,
}
use my_sync.Gate.{action_send, action_skip, second_gate}

-- The options, and which services a run has: the gate's, its record buffer, and the database with
-- its filter of states.
pub record Env : Type 0 where
  pub config : Config
  pub prefix : Key
  pub gate : Bool
  pub gate_buffer : Bool
  pub db : Bool
  pub db_skipped : Bool

-- What to do with the object: send it as it is or under a mark, skip it, skip it with a record of
-- the destination's size, or delay the removal of a source directory. `assertion` is the panic of
-- `needCopyPerms` on an object that is no file.
pub data Verdict : Type 0 where
  send skip delay_src assertion : Verdict
  send_marked skip_recorded : ℤ → Verdict

unfoldable pub use_first_gate : Env → Bool
use_first_gate env = env.gate && (not env.config.force_update && not env.config.ignore_existing)

-- No object of the key at the destination.
unfoldable pub missing_verdict : Env → Verdict
missing_verdict env = if env.config.existing then skip else send

-- The branches for `--check-all`, `--delete-src` and `--perms`, which the gated and the plain
-- comparison share but for what they end in.
unfoldable pub marks : Config → Object → Object → Verdict → Verdict
marks config o d otherwise =
    if config.check_all
    then send_marked mark_checksum
    else if config.delete_src
    then (if is_dir o then delay_src else send_marked mark_delete_src)
    else if config.perms
    then elim (need_copy_perms o d) [
      | none ↦ assertion
      | some needed ↦ if needed then send_marked mark_copy_perms else otherwise
    ]
    else otherwise

-- The second gate, where there is one.
unfoldable pub gated_verdict : Env → Object → Object → Verdict
gated_verdict env o d = elim (second_gate o (some d) env.config.force_update) [
  | action_send ↦ marks env.config o d send
  | action_skip ↦
      if env.gate_buffer && not (eqb_ℤ (size d) (pos 0)) then skip_recorded (size d) else skip
]

-- The comparison by size, or by whole seconds under `--update`.
unfoldable pub plain_verdict : Config → Object → Object → Verdict
plain_verdict config o d =
    if config.force_update
      || (config.update && ltb (whole_seconds (mtime d)) (whole_seconds (mtime o))
          || not config.update && not (eqb_ℤ (size o) (size d)))
    then send
    else if config.update && ltb (whole_seconds (mtime o)) (whole_seconds (mtime d))
    then skip
    else marks config o d skip

-- An object of the same key at the destination.
unfoldable pub common_verdict : Env → Object → Object → Verdict
common_verdict env o d =
    if env.config.ignore_existing
    then skip
    else if env.gate
    then gated_verdict env o d
    else plain_verdict env.config o d

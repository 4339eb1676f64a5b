-- ===== src/Worker/Task.antt =====
-- `worker` (pkg/sync/sync.go), by the mark of the task.
use my_sync.Common.{not, ◌&&◌, ◌||◌, Option, none, some, if◌then◌else◌}
use my_sync.Common.Int.{eqb_ℤ}
use my_sync.Object.{
  Object, key, size, is_dir, is_symlink, without_size, need_copy_perms, mark_delete_src,
  mark_delete_dst, mark_copy_perms, mark_checksum,
}
use my_sync.Completion.{Failure}
use my_sync.Copy.{ok, err}
use my_sync.Worker.{
  WorkEnv, Work, TaskAnswers, ObjectStatus, row_copied, row_skipped, row_failed, row_deleted,
  Change, deleted_src, deleted_dst, record_object, record_delete_result, count_failed, count_copied,
  count_checked, count_skipped_bytes, delete_step, drop_source, copy_perms, finish_task,
}
use my_sync.Worker.Check.{check_sum}
use my_sync.Worker.Steps.{copy_task}

-- A task that deletes.
unfoldable pub delete_task : WorkEnv → TaskAnswers → Object → Change → Work → Work × Option Failure
unfolding delete_step record_delete_result
delete_task env ans o c w =
    let (w', e) = delete_step ans.delete env.config.dry c w in
    (record_delete_result env (key o) (size (without_size o)) e w', e)

-- A task that copies permissions. A row is written in a dry run only.
unfoldable pub perms_task : WorkEnv → Object → Work → Option (Work × Option Failure)
unfolding record_object copy_perms
perms_task env o w =
    if env.config.dry
    then some (count_copied (record_object env (key o) (size (without_size o)) row_copied w), none)
    else elim (copy_perms env (without_size o) w) [
      | none ↦ none
      | some w' ↦ some (count_copied w', none)
    ]

-- An outcome with the status of its row.
abbrev pub Recorded : Type 0
Recorded = Work × Option Failure × ObjectStatus

abbrev pub drop_equal : TaskAnswers → Object → Work → Recorded
drop_equal ans o w =
    let (w', e) = drop_source ans (is_dir o) (key o) w in
    elim e [ none ↦ (w', none, row_deleted) | some x ↦ (w', some x, row_failed) ]

abbrev pub align_perms : WorkEnv → TaskAnswers → Object → Work → Option Recorded
align_perms env ans o w = elim ans.head_dst [
  | err e ↦ some (count_failed w, some e, row_failed)
  | ok d ↦ elim (need_copy_perms o d) [
    | none ↦ none
    | some needed ↦
        if needed
        then elim (copy_perms env o w) [
          | none ↦ none
          | some w' ↦ some (count_copied w', none, row_skipped)
        ]
        else some (count_skipped_bytes o w, none, row_skipped)
  ]
]

abbrev pub record_outcome : WorkEnv → Object → Option Recorded → Option (Work × Option Failure)
record_outcome env o none = none
record_outcome env o (some (w, e, status)) = some (record_object env (key o) (size o) status w, e)

-- Both objects are equal.
unfoldable pub equal_task : WorkEnv → TaskAnswers → Object → Work → Option (Work × Option Failure)
unfolding drop_source record_object
equal_task env ans o w = record_outcome env o (
    if env.config.delete_src
    then some (drop_equal ans o w)
    else if env.config.perms && (not (is_symlink o) || not env.config.links)
    then align_perms env ans o w
    else some (count_skipped_bytes o w, none, row_skipped))

-- The comparison of a task that verifies.
abbrev pub verify : WorkEnv → TaskAnswers → Object → Work → Option (Work × Option Failure)
verify env ans o w =
    let (w', r) = check_sum env o none ans.before w in
    elim r [
      | err e ↦ some (record_object env (key o) (size o) row_failed (count_failed w'), some e)
      | ok same ↦ if same then equal_task env ans o w' else copy_task env ans o w'
    ]

-- A task that verifies first, where a mode asks for it, and copies what differs.
unfoldable pub checksum_task :
    WorkEnv → TaskAnswers → Object → Work → Option (Work × Option Failure)
unfolding check_sum equal_task copy_task
checksum_task env ans o w =
    if env.config.dry
    then some
        (record_object env (key o) (size (without_size o)) row_skipped (count_checked w), none)
    else if env.config.check_all || (env.config.check_new || env.config.check_change)
    then verify env ans (without_size o) w
    else copy_task env ans (without_size o) w

-- The branches of `worker`.
unfoldable pub run_task : WorkEnv → TaskAnswers → Object → Work → Option (Work × Option Failure)
unfolding delete_task perms_task checksum_task copy_task
run_task env ans o w =
    if eqb_ℤ (size o) mark_delete_src
    then some (delete_task env ans o (deleted_src (key o)) w)
    else if eqb_ℤ (size o) mark_delete_dst
    then some (delete_task env ans o (deleted_dst (key o)) w)
    else if eqb_ℤ (size o) mark_copy_perms
    then perms_task env o w
    else if eqb_ℤ (size o) mark_checksum
    then checksum_task env ans o w
    else copy_task env ans o w

-- One round of `worker`.
unfoldable pub handle_task : WorkEnv → TaskAnswers → Object → Work → Option Work
unfolding run_task finish_task
handle_task env ans o w = elim (run_task env ans o w) [
  | none ↦ none
  | some (w', e) ↦ some (finish_task env (key o) e w')
]

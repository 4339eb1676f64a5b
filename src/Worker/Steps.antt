-- ===== src/Worker/Steps.antt =====
-- The steps of `worker` (pkg/sync/sync.go) that copy an object, and `copyLink`.
use my_sync.Common.{ℕ, Bool, true, false, not, ◌&&◌, Option, none, some, if◌then◌else◌}
use my_sync.Common.Int.{pos_part}
use my_sync.Config.{Config}
use my_sync.Object.{Object, key, size, mtime, is_dir, is_symlink}
use my_sync.Gate.{record_success, record_failure}
use my_sync.Common.Int.{pos}
use my_sync.Completion.{Failure, err_skipped, err_extlink, err_other}
use my_sync.Copy.{Result, ok, err}
use my_sync.Copy.Multiple.{Job}
use my_sync.Copy.Data.{copy_data}
use my_sync.Worker.{
  WorkEnv, Work, TaskAnswers, row_copied, row_skipped, row_failed, linked_to, deleted_dst,
  copied_to, record_object, count_failed, count_copied, count_skipped, changed, gate_record,
  drop_source, copy_perms, uploads_of, with_uploads,
}
use my_sync.Worker.Check.{check_sum, check_change, checks}

-- `copyLink`. A storage without links is a panic.
unfoldable pub copy_link : WorkEnv → TaskAnswers → Object → Work → Option (Work × Result ℕ)
copy_link env ans o w = if not env.src_links then none else elim ans.read_link [
  | err e ↦ some (w, err e)
  | ok link ↦ elim ans.remove_old [
    | some e ↦ some (w, err e)
    | none ↦ if not env.dst_links then none else elim ans.make_link [
      | some e ↦ some (changed (deleted_dst (key o)) w, err e)
      | none ↦ some (changed (linked_to (key o)) (changed (deleted_dst (key o)) w), ok 0)
    ]
  ]
]

-- What is copied of an object. Its size is not negative, as it has no mark.
abbrev pub job_of : Config → Object → Job
job_of config o = record {
  key = key o;
  size = pos_part (size o);
  mtime = mtime o;
  cal = checks config;
}

-- A link is copied as one, or the data.
unfoldable pub transfer : WorkEnv → TaskAnswers → Object → Work → Option (Work × Result ℕ)
unfolding copy_link
transfer env ans o w =
    if env.config.links && is_symlink o
    then copy_link env ans o w
    else (let out = copy_data env.crc env.ends (job_of env.config o) (uploads_of w) ans.copy in
        let w' = with_uploads out.store w in
        some (elim out.result [
          | ok sum ↦ (changed (copied_to (key o)) w', ok sum)
          | err e ↦ (w', err e)
        ]))

-- A link that points outside is skipped.
abbrev pub extlink_skipped : Failure → Failure
extlink_skipped err_extlink = err_skipped
extlink_skipped e = e

-- The checksums after a copy.
abbrev pub verify_copy : WorkEnv → TaskAnswers → Object → ℕ → Work → Work × Option Failure
verify_copy env ans o sum w =
    let (w', r) = check_sum env o (some sum) ans.after w in
    elim r [ err e ↦ (w', some e) | ok same ↦ (w', if same then none else some err_other) ]

abbrev pub check_if : Bool → WorkEnv → TaskAnswers → Object → Work → Work × Option Failure
check_if true env ans o w = check_change env ans o w
check_if false env ans o w = (w, none)

-- The checks after a copy that went well: for a change, then of the checksums.
unfoldable pub after_copy : WorkEnv → TaskAnswers → Object → ℕ → Work → Work × Option Failure
unfolding check_change check_sum
after_copy env ans o sum w =
    let (w', e) = check_if env.config.check_change env ans o w in
    elim e [
      | some x ↦ (w', some x)
      | none ↦ if checks env.config then verify_copy env ans o sum w' else (w', none)
    ]

-- The error of the copy with its checks.
unfoldable pub copy_and_check :
    WorkEnv → TaskAnswers → Object → Work → Option (Work × Option Failure)
unfolding transfer after_copy
copy_and_check env ans o w = elim (transfer env ans o w) [
  | none ↦ none
  | some (w', r) ↦
      some
        (elim r [ err e ↦ (w', some (extlink_skipped e)) | ok sum ↦ after_copy env ans o sum w' ])
]

abbrev pub perms_if : Bool → WorkEnv → Object → Work → Option Work
perms_if true env o w = copy_perms env o w
perms_if false env o w = some w

-- A copy that went well.
unfoldable pub note_success : WorkEnv → Object → Work → Option Work
unfolding copy_perms record_object
note_success env o w = elim (perms_if env.config.perms env o w) [
  | none ↦ none
  | some w' ↦ some (
      gate_record env (record_success o (pos 0))
        (record_object env (key o) (size o) row_copied (count_copied w')))
]

abbrev pub note_failure : WorkEnv → Object → Failure → Work → Work
note_failure env o e w =
    gate_record env (record_failure o (some (env.message e)) (pos 0))
      (record_object env (key o) (size o) row_failed (count_failed w))

abbrev pub note_skip : WorkEnv → Object → Work → Work
note_skip env o w = record_object env (key o) (size o) row_skipped (count_skipped w)

-- What a copy comes to, with `taskErr`: `ErrSkipped` is no error of the task.
unfoldable pub note_copy : WorkEnv → Object → Option Failure → Work → Option (Work × Option Failure)
unfolding note_success record_object
note_copy env o none w = elim (note_success env o w) [ none ↦ none | some w' ↦ some (w', none) ]
note_copy env o (some err_skipped) w = some (note_skip env o w, none)
note_copy env o (some e) w = some (note_failure env o e w, some e)

-- `--delete-src-after`
unfoldable pub drop_after :
    WorkEnv → TaskAnswers → Object → Work × Option Failure → Work × Option Failure
unfolding drop_source
drop_after env ans o (w, some e) = (w, some e)
drop_after env ans o (w, none) =
    if env.config.delete_src_after then drop_source ans (is_dir o) (key o) w else (w, none)

-- The branch that copies.
unfoldable pub copy_task : WorkEnv → TaskAnswers → Object → Work → Option (Work × Option Failure)
unfolding copy_and_check note_copy drop_after
copy_task env ans o w =
    if env.config.dry then some (count_copied w, none) else elim (copy_and_check env ans o w) [
      | none ↦ none
      | some (w', e) ↦ elim (note_copy env o e w') [
        | none ↦ none
        | some done ↦ some (drop_after env ans o done)
      ]
    ]

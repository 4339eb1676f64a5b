-- ===== src/Worker/Dry.antt =====
-- A dry run.
use my_sync.Common.{◌≡◌, refl, ◌∙◌, true, Option, none, some, arith}
use my_sync.Common.Key.{Key}
use my_sync.Common.Int.{ℤ, eqb_ℤ}
use my_sync.Object.{
  Object, key, size, without_size, mark_delete_src, mark_delete_dst, mark_copy_perms, mark_checksum,
}
use my_sync.Completion.{Failure, delete_obj}
use my_sync.Worker.{
  WorkEnv, Work, TaskAnswers, Change, deleted_src, deleted_dst, ObjectStatus, row_copied,
  row_skipped, row_deleted, record_object, record_delete_result, delete_step, finish_task,
  count_checked,
}
use my_sync.Produce.Effects.{State, incr_handled, untrack_scanned}
use my_sync.Worker.Steps.{copy_task}
use my_sync.Worker.Task.{delete_task, perms_task, checksum_task, run_task, handle_task}
use my_sync.Worker.Counting.{Ends, Ends-some, Ends-if}
use my_sync.Worker.Rows.{handle_task-some}

-- The storages and the source directories that are to go are left as they are, and so are the uploads
-- of a worker, and the task has no error.
abbrev Untouched : Work → Work × Option Failure → Type 0
Untouched w (w', e) =
    (w'.changes ≡ w.changes)
    × (w'.run.src_delay_del ≡ w.run.src_delay_del)
    × (w'.worker_uploads ≡ w.worker_uploads)
    × (e ≡ none)

record_object-Untouched :
    (env : WorkEnv) (k : Key) (n : ℤ) (status : ObjectStatus) (w : Work)
    → Untouched w (record_object env k n status w, none)
unfolding record_object
record_object-Untouched env k n status w = ground arith

module _ (env : WorkEnv) (ans : TaskAnswers) (o : Object) (w : Work)
    (dry : env.config.dry ≡ true) where
  delete_task-dry : (c : Change) → Untouched w (delete_task env ans o c w)
  unfolding delete_task delete_step delete_obj record_delete_result
  delete_task-dry c =
      simp (delete_task, delete_step, dry)
        (record_object-Untouched env (key o) (size (without_size o)) row_deleted _)

  perms_task-dry : Ends (Untouched w) (perms_task env o w)
  unfolding perms_task
  perms_task-dry =
      Ends-if (Untouched w) env.config.dry _ _
        (λ h. record_object-Untouched env (key o) (size (without_size o)) row_copied w)
        (λ h. cc (h, dry))

  checksum_task-dry : Ends (Untouched w) (checksum_task env ans o w)
  unfolding checksum_task
  checksum_task-dry =
      Ends-if (Untouched w) env.config.dry _ _
        (λ h.
          record_object-Untouched env (key o) (size (without_size o)) row_skipped (count_checked w))
        (λ h. cc (h, dry))

  copy_task-dry : Ends (Untouched w) (copy_task env ans o w)
  unfolding copy_task
  copy_task-dry =
      Ends-if (Untouched w) env.config.dry _ _ (λ h. (refl, refl, refl, refl)) (λ h. cc (h, dry))

  run_task-dry : Ends (Untouched w) (run_task env ans o w)
  unfolding run_task
  run_task-dry =
      Ends-if P (eqb_ℤ (size o) mark_delete_src) _ _ (λ h. delete_task-dry (deleted_src (key o)))
        (λ h.
          Ends-if P (eqb_ℤ (size o) mark_delete_dst) _ _
            (λ g. delete_task-dry (deleted_dst (key o)))
            (λ g.
              Ends-if P (eqb_ℤ (size o) mark_copy_perms) _ _ (λ i. perms_task-dry)
                (λ i.
                  Ends-if P (eqb_ℤ (size o) mark_checksum) _ _ (λ j. checksum_task-dry)
                    (λ j. copy_task-dry))))
    where
      P : Work × Option Failure → Type 0
      P = Untouched w

-- A dry run: every task ends, and changes neither storage, nor the directories that are to be removed
-- from the source at the end, nor the uploads of a cluster's worker.
pub handle_task-dry :
    (env : WorkEnv) (ans : TaskAnswers) (o : Object) (w : Work)
    → env.config.dry ≡ true
    → (w' : Work) × (handle_task env ans o w ≡ some w')
      × (w'.changes ≡ w.changes)
      × (w'.run.src_delay_del ≡ w.run.src_delay_del)
      × (w'.worker_uploads ≡ w.worker_uploads)
unfolding finish_task incr_handled untrack_scanned
handle_task-dry env ans o w dry =
    let ((done, e), f, (changes, waiting, uploads, _)) =
      Ends-some (Untouched w) (run_task env ans o w) (run_task-dry env ans o w dry) in
    (
      finish_task env (key o) e done,
      handle_task-some env ans o w done e f,
      changes,
      delayed (key o) _ ∙ waiting,
      uploads,
    )
  where
    delayed :
        (k : Key) (st : State)
        → (incr_handled (untrack_scanned k st)).src_delay_del ≡ st.src_delay_del
    delayed k st = ground arith

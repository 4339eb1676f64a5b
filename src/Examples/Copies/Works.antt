-- ===== src/Examples/Copies/Works.antt =====
-- Tasks of a worker.
use my_sync.Common.{◌≡◌, refl, ap, sym, Bool, true, false, none, some, [], ◌∷◌, length, take, arith}
use my_sync.Common.Int.{pos}
use my_sync.Common.Map
use my_sync.Common.Map.{key_keys}
use my_sync.Config.{Config}
use my_sync.Object.{
  Object, entry, key, size, mtime, is_symlink, base, as_file, with_size, without_size,
  mark_delete_src,
}
use my_sync.Completion.{err_extlink, delete_obj, try_calls, should_retry}
use my_sync.Copy.{ok, err, retry}
use my_sync.Copy.Sums.{ok_injective}
use my_sync.Copy.Data.{copy_data, copy_single, put_bytes}
use my_sync.Contents.{object_chksum}
use my_sync.Worker.{WorkEnv, Work, TaskAnswers, Reads, deleted_src, copied_to, row_deleted}
use my_sync.Worker.Check.{do_check_sum}
use my_sync.Worker.Steps.{copy_and_check}
use my_sync.Worker.Task.{handle_task}
use my_sync.Worker.Good.{copy_and_check-same_sum}
use my_sync.Worker.Removal.{RemovalReason, handle_task-removals}
use my_sync.Worker.Removing.{Removes}
use my_sync.Worker.Dry.{handle_task-dry}
use my_sync.Worker.Rows.{writes_row, handle_task-Ends}
use my_sync.Worker.Endings.{grown}
use my_sync.Examples.{key_a, config_with, start_state}
use my_sync.Examples.Copies.{
  adding, adding-UpdatesByBlocks, adding-Combines, holding, holding-Serves, two_bytes,
  two_bytes-Delivers, whole_range, data_answers, plain_ends,
}

-- A file, or a link, of two bytes.
abbrev file_or_link : Bool → Object
file_or_link link = entry (record {
  key = key_a;
  size = pos 2;
  mtime = 7;
  is_dir = false;
  file = some (record { owner = []; group = []; mode = 420; is_symlink = link });
})

abbrev config_work : Config
config_work = record (config_with []) { check_all = true; links = true; delete_src_after = true }

abbrev env_work : Bool → WorkEnv
env_work dry = record {
  config = record config_work { dry = dry };
  crc = adding;
  ends = plain_ends;
  db = true;
  keeps = λ status. true;
  gate_buffer = false;
  file_system = true;
  src_links = true;
  dst_links = true;
  message = λ e. [];
}

abbrev work_start : Work
work_start = record {
  run = start_state (pos 9);
  copied = 0;
  checked = 0;
  deletions = record { deleted = 0; failed = 0; calls = 0 };
  rows = [];
  changes = [];
  completed_keys = [];
  failed_keys = [];
  worker_uploads = none;
}

abbrev reads_work : Reads
reads_work = record {
  src_link = none;
  dst_link = none;
  src_reader = holding two_bytes;
  dst_reader = holding two_bytes;
  order = whole_range ∷ [];
}

abbrev answers_work : TaskAnswers
answers_work = record {
  delete = λ i. none;
  before = λ i. reads_work;
  after = λ i. reads_work;
  head_dst = ok (file_or_link false);
  read_link = err err_extlink;
  remove_old = none;
  make_link = none;
  copy = data_answers two_bytes;
  src_now = ok (file_or_link false);
  dst_now = ok (file_or_link false);
}

-- After the copy and its check.
abbrev work_copied : Work
work_copied = record work_start { changes = copied_to key_a ∷ []; checked = 1 }

copy_and_check-same_sum_example :
    adding.update 0 (take 2 two_bytes) ≡ adding.update 0 (take 2 two_bytes)
unfolding copy_and_check copy_data copy_single put_bytes retry do_check_sum object_chksum is_symlink
    base size key mtime
copy_and_check-same_sum_example =
    copy_and_check-same_sum (env_work false) answers_work (file_or_link false) work_start
      work_copied two_bytes two_bytes 2 adding-UpdatesByBlocks adding-Combines refl refl refl
      (omega arith) (omega arith) two_bytes-Delivers (λ i. holding-Serves two_bytes) refl

abbrev task_delete : Object
task_delete = with_size (file_or_link false) mark_delete_src

-- After the removal.
abbrev work_removed : Work
work_removed = record work_start {
  run = record (start_state (pos 9)) { handled = 1 };
  deletions = record { deleted = 1; failed = 0; calls = 1 };
  rows = (key_a, pos 2, row_deleted) ∷ [];
  changes = deleted_src key_a ∷ [];
}

handle_task-removals_example :
    Removes (RemovalReason (env_work false) answers_work task_delete) work_start work_removed
unfolding handle_task base size key with_size without_size delete_obj try_calls should_retry Map.get
handle_task-removals_example =
    handle_task-removals (env_work false) answers_work task_delete work_start work_removed refl

handle_task-Ends_example :
    (w' : Work) × (handle_task (env_work false) answers_work (file_or_link false) work_start
      ≡ some w')
    × (length w'.rows ≡ grown (writes_row (env_work false) (file_or_link false)) 0)
    × (Map.contains w'.run.scanned key_a ≡ false)
unfolding as_file base key
handle_task-Ends_example =
    handle_task-Ends (env_work false) answers_work (file_or_link false) work_start
      (refl, (λ status. refl))
      (
        (_, refl),
        (λ d e. (_, ap as_file (sym (ok_injective (file_or_link false) d e)))),
        refl,
        refl,
        refl,
      )

handle_task-dry_example :
    (w' : Work) × (handle_task (env_work true) answers_work task_delete work_start ≡ some w')
    × (w'.changes ≡ [])
    × (w'.run.src_delay_del ≡ [])
    × (w'.worker_uploads ≡ none)
handle_task-dry_example = handle_task-dry (env_work true) answers_work task_delete work_start refl

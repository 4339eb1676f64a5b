-- ===== src/Worker/Rows.antt =====
-- Every task ends, and how many rows of the database it writes.
use my_sync.Common.{
  suc, ◌≡◌, refl, sym, ap, subst, ◌∙◌, Bool, true, false, not, ◌&&◌, ◌||◌, Option, none, some,
  arith, Bool-cases, Option-cases, inl, inr, length, if◌then◌else◌,
}
use my_sync.Common.Key.{Key}
use my_sync.Common.Map
use my_sync.Common.Map.{key_keys}
use my_sync.Produce.Effects.{State, incr_handled, untrack_scanned}
use my_sync.Common.Int.{ℤ, eqb_ℤ}
use my_sync.Object.{
  Object, key, size, is_dir, is_symlink, as_file, base, without_size, need_copy_perms, attrs_differ,
  entry, sized, with_parts, mark_delete_src, mark_delete_dst, mark_copy_perms, mark_checksum,
}
use my_sync.Completion.{Failure}
use my_sync.Copy.{ok}
use my_sync.Copy.Sums.{Result-cases}
use my_sync.Worker.{
  WorkEnv, Work, TaskAnswers, Change, deleted_src, deleted_dst, row_copied, row_skipped, row_failed,
  row_deleted, record_delete_result, delete_step, drop_source, copy_perms, finish_task,
  count_checked, count_failed,
}
use my_sync.Worker.Check.{check_sum}
use my_sync.Worker.Steps.{copy_task}
use my_sync.Worker.Task.{
  delete_task, perms_task, equal_task, verify, checksum_task, run_task, handle_task, drop_equal,
  align_perms, record_outcome, Recorded,
}
use my_sync.Worker.Counting.{Ends, Ends-some, Ends-if}
use my_sync.Worker.Endings.{
  KeepsAll, Capable, rows, rows-record_object, copy_perms-Ends, rows-check_sum, rows-delete_step,
  rows-drop_source, grown, copy_task-Ends,
}

-- A branch that writes one row.
abbrev OneRow : Work → Work × Option Failure → Type 0
OneRow w r = rows r.0 ≡ suc (rows w)

needs :
    (env : WorkEnv) (ans : TaskAnswers) (o : Object) (w : Work) (d : Object) (w' : Work)
    → ans.head_dst ≡ ok d
    → need_copy_perms o d ≡ some true
    → copy_perms env o w ≡ some w'
    → rows w' ≡ rows w
    → Ends (λ r. rows r.0 ≡ rows w) (align_perms env ans o w)
needs env ans o w d w' e needed c same = rw (align_perms, e, needed, c) same

align_perms-Ends :
    (env : WorkEnv) (ans : TaskAnswers) (o : Object) (w : Work)
    → Capable env ans o
    → Ends (λ r. rows r.0 ≡ rows w) (align_perms env ans o w)
unfolding need_copy_perms
align_perms-Ends env ans o w can = elim (Result-cases ans.head_dst) [
  | inr (x, e) ↦ rw (align_perms, e) refl
  | inl (d, e) ↦
      let (f, file) = can.0 in
      let (g, file') = can.1 d e in
      elim (Bool-cases (attrs_differ g f)) [
        | inr h ↦ simp (align_perms, e, need_copy_perms, file, file', h) refl
        | inl h ↦
            let (w', c, same) =
              Ends-some (λ w'. rows w' ≡ rows w) (copy_perms env o w)
                (copy_perms-Ends env ans o w can) in
            needs env ans o w d w' e (simp (need_copy_perms, file, file', h) refl) c same
      ]
]

record_outcome-Ends :
    (env : WorkEnv) (o : Object) (w : Work) (out : Option Recorded)
    → KeepsAll env
    → Ends (λ r. rows r.0 ≡ rows w) out
    → Ends (OneRow w) (record_outcome env o out)
record_outcome-Ends env o w none keep h = h
record_outcome-Ends env o w (some (w', e, status)) keep h =
    rows-record_object env (key o) (size o) status w' keep ∙ ap suc h

rows-drop_equal : (ans : TaskAnswers) (o : Object) (w : Work) → rows (drop_equal ans o w).0 ≡ rows w
rows-drop_equal ans o w = elim (Option-cases (drop_source ans (is_dir o) (key o) w).1) [
  | inl e ↦ rw (drop_equal, e) (rows-drop_source ans (is_dir o) (key o) w)
  | inr (x, e) ↦ rw (drop_equal, e) (rows-drop_source ans (is_dir o) (key o) w)
]

equal_task-Ends :
    (env : WorkEnv) (ans : TaskAnswers) (o : Object) (w : Work)
    → KeepsAll env
    → Capable env ans o
    → Ends (OneRow w) (equal_task env ans o w)
unfolding equal_task
equal_task-Ends env ans o w keep can = record_outcome-Ends env o w _ keep (
    Ends-if (λ r. rows r.0 ≡ rows w) env.config.delete_src _ _ (λ e. rows-drop_equal ans o w)
      (λ e.
        Ends-if (λ r. rows r.0 ≡ rows w)
          (env.config.perms && (not (is_symlink o) || not env.config.links)) _ _
          (λ f. align_perms-Ends env ans o w can) (λ f. refl)))

verify-Ends :
    (env : WorkEnv) (ans : TaskAnswers) (o : Object) (w : Work)
    → KeepsAll env
    → Capable env ans o
    → env.config.dry ≡ false
    → Ends (OneRow w) (verify env ans o w)
verify-Ends env ans o w keep can real =
    let w' = (check_sum env o none ans.before w).0 in
    let same = rows-check_sum env o none ans.before w in
    elim (Result-cases (check_sum env o none ans.before w).1) [
      | inr (x, e) ↦
          rw (verify, e)
            (rows-record_object env (key o) (size o) row_failed (count_failed w') keep
              ∙ ap suc same)
      | inl (true, e) ↦
          rw (verify, e)
            (subst (λ n. Ends (λ r. rows r.0 ≡ suc n) (equal_task env ans o w')) same
              (equal_task-Ends env ans o w' keep can))
      | inl (false, e) ↦
          rw (verify, e)
            (subst (λ n. Ends (λ r. rows r.0 ≡ suc n) (copy_task env ans o w')) same
              (subst (λ d. Ends (λ r. rows r.0 ≡ grown (not d) (rows w')) (copy_task env ans o w'))
                real (copy_task-Ends env ans o w' keep can)))
    ]

Capable-without_size :
    (env : WorkEnv) (ans : TaskAnswers) (o : Object)
    → Capable env ans o
    → Capable env ans (without_size o)
unfolding as_file base without_size
Capable-without_size env ans (entry e) can = can
Capable-without_size env ans (sized o n) can = can
Capable-without_size env ans (with_parts o u) can = can

checksum_task-Ends :
    (env : WorkEnv) (ans : TaskAnswers) (o : Object) (w : Work)
    → KeepsAll env
    → Capable env ans o
    → Ends (OneRow w) (checksum_task env ans o w)
unfolding checksum_task
checksum_task-Ends env ans o w keep can =
    let o' = without_size o in
    let can' = Capable-without_size env ans o can in
    Ends-if (OneRow w) env.config.dry _ _
      (λ dry. rows-record_object env (key o) (size o') row_skipped (count_checked w) keep)
      (λ real.
        Ends-if (OneRow w)
          (env.config.check_all || (env.config.check_new || env.config.check_change)) _ _
          (λ checked. verify-Ends env ans o' w keep can' real)
          (λ unchecked.
            subst (λ d. Ends (λ r. rows r.0 ≡ grown (not d) (rows w)) (copy_task env ans o' w)) real
              (copy_task-Ends env ans o' w keep can')))

rows-record_delete_result :
    (env : WorkEnv) (k : Key) (n : ℤ) (e : Option Failure) (w : Work)
    → KeepsAll env
    → rows (record_delete_result env k n e w) ≡ suc (rows w)
unfolding record_delete_result
rows-record_delete_result env k n none w keep = rows-record_object env k n row_deleted w keep
rows-record_delete_result env k n (some e) w keep = rows-record_object env k n row_failed w keep

rows-delete_task :
    (env : WorkEnv) (ans : TaskAnswers) (o : Object) (c : Change) (w : Work)
    → KeepsAll env
    → OneRow w (delete_task env ans o c w)
unfolding delete_task
rows-delete_task env ans o c w keep =
    let step = delete_step ans.delete env.config.dry c w in
    rows-record_delete_result env (key o) (size (without_size o)) step.1 step.0 keep
    ∙ ap suc (rows-delete_step ans.delete env.config.dry c w)

perms_task-Ends :
    (env : WorkEnv) (ans : TaskAnswers) (o : Object) (w : Work)
    → KeepsAll env
    → Capable env ans o
    → Ends (λ r. rows r.0 ≡ grown env.config.dry (rows w)) (perms_task env o w)
unfolding perms_task
perms_task-Ends env ans o w keep can =
    Ends-if P env.config.dry _ _
      (λ dry.
        rows-record_object env (key o) (size (without_size o)) row_copied w keep ∙ wet true dry)
      (λ real.
        let (w', e, same) =
          Ends-some (λ w'. rows w' ≡ rows w) (copy_perms env (without_size o) w)
            (copy_perms-Ends env ans (without_size o) w (Capable-without_size env ans o can)) in
        rw e (same ∙ wet false real))
  where
    P : Work × Option Failure → Type 0
    P r = rows r.0 ≡ grown env.config.dry (rows w)

    wet : (b : Bool) → env.config.dry ≡ b → grown b (rows w) ≡ grown env.config.dry (rows w)
    wet b e = ap (λ d. grown d (rows w)) (sym e)

-- Whether a task writes a row: all do but a copy in a dry run, and a copy of permissions in any other.
abbrev pub writes_row : WorkEnv → Object → Bool
writes_row env o =
    if eqb_ℤ (size o) mark_delete_src || eqb_ℤ (size o) mark_delete_dst
    then true
    else if eqb_ℤ (size o) mark_copy_perms
    then env.config.dry
    else eqb_ℤ (size o) mark_checksum || not env.config.dry

run_task-Ends :
    (env : WorkEnv) (ans : TaskAnswers) (o : Object) (w : Work)
    → KeepsAll env
    → Capable env ans o
    → Ends (λ r. rows r.0 ≡ grown (writes_row env o) (rows w)) (run_task env ans o w)
unfolding run_task
run_task-Ends env ans o w keep can =
    by_marks (eqb_ℤ (size o) mark_delete_src) (eqb_ℤ (size o) mark_delete_dst)
      (eqb_ℤ (size o) mark_copy_perms) (eqb_ℤ (size o) mark_checksum)
  where
    by_marks :
        (a b c d : Bool)
        → Ends
            (λ r.
              rows r.0
              ≡ grown
                  (if a || b then true else if c then env.config.dry else d || not env.config.dry)
                  (rows w))
            (if a
              then some (delete_task env ans o (deleted_src (key o)) w)
              else if b
              then some (delete_task env ans o (deleted_dst (key o)) w)
              else if c
              then perms_task env o w
              else if d
              then checksum_task env ans o w
              else copy_task env ans o w)
    by_marks true b c d = rows-delete_task env ans o (deleted_src (key o)) w keep
    by_marks false true c d = rows-delete_task env ans o (deleted_dst (key o)) w keep
    by_marks false false true d = perms_task-Ends env ans o w keep can
    by_marks false false false true = checksum_task-Ends env ans o w keep can
    by_marks false false false false = copy_task-Ends env ans o w keep can

scanned-untrack : (k : Key) (st : State) → Map.contains (untrack_scanned k st).scanned k ≡ false
unfolding untrack_scanned
scanned-untrack k st = ground (arith, Map.get-delete st.scanned k k)

pub handle_task-some :
    (env : WorkEnv) (ans : TaskAnswers) (o : Object) (w done : Work) (e : Option Failure)
    → run_task env ans o w ≡ some (done, e)
    → handle_task env ans o w ≡ some (finish_task env (key o) e done)
unfolding handle_task
handle_task-some env ans o w done e f = rw (handle_task, f) refl

-- With storages that can do what the options ask for, and objects that are files, no task ends the
-- process, and with a database that takes all rows a task writes one row, but for a copy in
-- a dry run and a copy of permissions outside one, which write none. Its key is no longer among the scanned ones.
pub handle_task-Ends :
    (env : WorkEnv) (ans : TaskAnswers) (o : Object) (w : Work)
    → KeepsAll env
    → Capable env ans o
    → (w' : Work) × (handle_task env ans o w ≡ some w')
      × (length w'.rows ≡ grown (writes_row env o) (length w.rows))
      × (Map.contains w'.run.scanned (key o) ≡ false)
unfolding finish_task incr_handled
handle_task-Ends env ans o w keep can =
    let ((done, e), f, same) =
      Ends-some (λ r. rows r.0 ≡ grown (writes_row env o) (rows w)) (run_task env ans o w)
        (run_task-Ends env ans o w keep can) in
    (
      finish_task env (key o) e done,
      handle_task-some env ans o w done e f,
      same,
      scanned-untrack (key o) _,
    )

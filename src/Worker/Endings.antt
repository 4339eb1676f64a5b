-- ===== src/Worker/Endings.antt =====
-- Every step of a copy ends, and how many rows of the database it writes.
use my_sync.Common.{
  ℕ, suc, ◌≡◌, refl, ap, ◌∙◌, Bool, true, false, not, ◌&&◌, Option, none, some, [], ◌∷◌, arith,
  Bool-cases, Option-cases, inl, inr, length, length-append, if◌then◌else◌,
}
use my_sync.Common.Key.{Key}
use my_sync.Common.Map.{key_keys}
use my_sync.Common.Int.{ℤ, pos}
use my_sync.Object.{Object, key, size, is_dir, is_symlink, as_file, FileAttrs}
use my_sync.Completion.{
  Failure, err_skipped, err_extlink, errno_not_exist, err_not_exist, errno_temporary, errno_other,
  err_other, delete_obj,
}
use my_sync.Gate.{SyncRecord, record_success, record_failure}
use my_sync.Copy.{ok}
use my_sync.Copy.Sums.{Result-cases}
use my_sync.Copy.Data.{copy_data}
use my_sync.Worker.{
  WorkEnv, Work, TaskAnswers, Change, Reads, deleted_src, ObjectStatus, row_copied, row_skipped,
  row_failed, record_object, delete_step, drop_source, copy_perms, count_copied, count_failed,
  count_skipped, gate_record, with_uploads, uploads_of,
}
use my_sync.Worker.Check.{check_sum, check_change, checks}
use my_sync.Worker.Steps.{
  job_of, copy_link, transfer, check_if, verify_copy, note_failure, after_copy, copy_and_check,
  perms_if, note_success, note_copy, drop_after, copy_task,
}
use my_sync.Worker.Counting.{Ends, Ends-some, Ends-if}

-- A run whose database takes every row.
abbrev pub KeepsAll : WorkEnv → Type 0
KeepsAll env = (env.db ≡ true) × ((status : ObjectStatus) → env.keeps status ≡ true)

-- Objects that are files, and storages that can do what the options ask for.
abbrev pub Capable : WorkEnv → TaskAnswers → Object → Type 0
Capable env ans o =
    ((f : FileAttrs) × (as_file o ≡ some f))
    × ((d : Object) → ans.head_dst ≡ ok d → (f : FileAttrs) × (as_file d ≡ some f))
    × (env.file_system ≡ true)
    × (env.src_links ≡ true)
    × (env.dst_links ≡ true)

abbrev pub rows : Work → ℕ
rows w = length w.rows

pub rows-record_object :
    (env : WorkEnv) (k : Key) (n : ℤ) (status : ObjectStatus) (w : Work)
    → KeepsAll env
    → rows (record_object env k n status w) ≡ suc (rows w)
unfolding record_object
rows-record_object env k n status w keep =
    simp (record_object, keep.0, keep.1 status)
      (omega (arith, length-append w.rows ((k, n, status) ∷ [])))

pub copy_perms-Ends :
    (env : WorkEnv) (ans : TaskAnswers) (o : Object) (w : Work)
    → Capable env ans o
    → Ends (λ w'. rows w' ≡ rows w) (copy_perms env o w)
unfolding copy_perms
copy_perms-Ends env ans o w can =
    let (f, file) = can.0 in
    elim (Bool-cases (f.is_symlink && env.config.links)) [
      | inl e ↦ simp (copy_perms, file, e) refl
      | inr e ↦ simp (copy_perms, file, e, can.2) refl
    ]

copy_link-Ends :
    (env : WorkEnv) (ans : TaskAnswers) (o : Object) (w : Work)
    → Capable env ans o
    → Ends (λ r. rows r.0 ≡ rows w) (copy_link env ans o w)
unfolding copy_link
copy_link-Ends env ans o w (_, _, _, from, to) = elim (Result-cases ans.read_link) [
  | inr (x, e) ↦ simp (copy_link, from, e) refl
  | inl (link, e) ↦ elim (Option-cases ans.remove_old) [
    | inr (x, f) ↦ simp (copy_link, from, e, f) refl
    | inl f ↦ elim (Option-cases ans.make_link) [
      | inr (x, g) ↦ simp (copy_link, from, e, f, to, g) refl
      | inl g ↦ simp (copy_link, from, e, f, to, g) refl
    ]
  ]
]

rows-with_uploads : (out : Option _) (w : Work) → rows (with_uploads out w) ≡ rows w
rows-with_uploads out w = ground arith

transfer-Ends :
    (env : WorkEnv) (ans : TaskAnswers) (o : Object) (w : Work)
    → Capable env ans o
    → Ends (λ r. rows r.0 ≡ rows w) (transfer env ans o w)
unfolding transfer
transfer-Ends env ans o w can =
    let out = copy_data env.crc env.ends (job_of env.config o) (uploads_of w) ans.copy in
    elim (Bool-cases (env.config.links && is_symlink o)) [
      | inl e ↦ simp (transfer, e) (copy_link-Ends env ans o w can)
      | inr e ↦ elim (Result-cases out.result) [
        | inl (sum, f) ↦ simp (transfer, e, f) (rows-with_uploads out.store w)
        | inr (x, f) ↦ simp (transfer, e, f) (rows-with_uploads out.store w)
      ]
    ]

pub rows-check_sum :
    (env : WorkEnv) (o : Object) (sum : Option ℕ) (reads : ℕ → Reads) (w : Work)
    → rows (check_sum env o sum reads w).0 ≡ rows w
unfolding check_sum
rows-check_sum env o sum reads w = ground arith

rows-check_if :
    (b : Bool) (env : WorkEnv) (ans : TaskAnswers) (o : Object) (w : Work)
    → rows (check_if b env ans o w).0 ≡ rows w
unfolding check_change
rows-check_if b env ans o w = ground arith

rows-after_copy :
    (env : WorkEnv) (ans : TaskAnswers) (o : Object) (sum : ℕ) (w : Work)
    → rows (after_copy env ans o sum w).0 ≡ rows w
unfolding after_copy
rows-after_copy env ans o sum w =
    elim (Option-cases (check_if env.config.check_change env ans o w).1) [
      | inr (x, r) ↦ rw (after_copy, r) (rows-check_if env.config.check_change env ans o w)
      | inl r ↦
          rw (after_copy, r)
            (verified env ans o sum (check_if env.config.check_change env ans o w).0
              ∙ rows-check_if env.config.check_change env ans o w)
    ]
  where
    verified :
        (env : WorkEnv) (ans : TaskAnswers) (o : Object) (sum : ℕ) (w : Work)
        → rows (if checks env.config then verify_copy env ans o sum w else (w, none)).0 ≡ rows w
    verified env ans o sum w = ground (arith, rows-check_sum env o (some sum) ans.after w)

copy_and_check-Ends :
    (env : WorkEnv) (ans : TaskAnswers) (o : Object) (w : Work)
    → Capable env ans o
    → Ends (λ r. rows r.0 ≡ rows w) (copy_and_check env ans o w)
unfolding copy_and_check
copy_and_check-Ends env ans o w can =
    let ((w', r), e, same) =
      Ends-some (λ r. rows r.0 ≡ rows w) (transfer env ans o w) (transfer-Ends env ans o w can) in
    elim (Result-cases r) [
      | inr (x, f) ↦ rw (copy_and_check, e, f) same
      | inl (sum, f) ↦ rw (copy_and_check, e, f) (rows-after_copy env ans o sum w' ∙ same)
    ]

perms_if-Ends :
    (b : Bool) (env : WorkEnv) (ans : TaskAnswers) (o : Object) (w : Work)
    → Capable env ans o
    → Ends (λ w'. rows w' ≡ rows w) (perms_if b env o w)
perms_if-Ends true env ans o w can = copy_perms-Ends env ans o w can
perms_if-Ends false env ans o w can = refl

rows-gate : (env : WorkEnv) (rec : SyncRecord) (w : Work) → rows (gate_record env rec w) ≡ rows w
rows-gate env rec w = ground arith

note_failure-rows :
    (env : WorkEnv) (o : Object) (e : Failure) (w : Work)
    → KeepsAll env
    → rows (note_failure env o e w) ≡ suc (rows w)
note_failure-rows env o e w keep =
    rows-gate env (record_failure o (some (env.message e)) (pos 0))
      (record_object env (key o) (size o) row_failed (count_failed w))
    ∙ rows-record_object env (key o) (size o) row_failed (count_failed w) keep

note_copy-Ends :
    (env : WorkEnv) (ans : TaskAnswers) (o : Object) (e : Option Failure) (w : Work)
    → KeepsAll env
    → Capable env ans o
    → Ends (λ r. rows r.0 ≡ suc (rows w)) (note_copy env o e w)
unfolding note_copy note_success
note_copy-Ends env ans o none w keep can =
    let (w', e, same) =
      Ends-some (λ w'. rows w' ≡ rows w) (perms_if env.config.perms env o w)
        (perms_if-Ends env.config.perms env ans o w can) in
    rw (note_copy, note_success, e)
      (rows-gate env (record_success o (pos 0))
          (record_object env (key o) (size o) row_copied (count_copied w'))
        ∙ (rows-record_object env (key o) (size o) row_copied (count_copied w') keep ∙ ap suc same))
note_copy-Ends env ans o (some err_skipped) w keep can =
    rows-record_object env (key o) (size o) row_skipped (count_skipped w) keep
note_copy-Ends env ans o (some err_extlink) w keep can = note_failure-rows env o err_extlink w keep
note_copy-Ends env ans o (some errno_not_exist) w keep can =
    note_failure-rows env o errno_not_exist w keep
note_copy-Ends env ans o (some err_not_exist) w keep can =
    note_failure-rows env o err_not_exist w keep
note_copy-Ends env ans o (some errno_temporary) w keep can =
    note_failure-rows env o errno_temporary w keep
note_copy-Ends env ans o (some errno_other) w keep can = note_failure-rows env o errno_other w keep
note_copy-Ends env ans o (some err_other) w keep can = note_failure-rows env o err_other w keep

pub rows-delete_step :
    (delete : ℕ → Option Failure) (dry : Bool) (c : Change) (w : Work)
    → rows (delete_step delete dry c w).0 ≡ rows w
unfolding delete_step
rows-delete_step delete dry c w = elim (Option-cases (delete_obj delete dry w.deletions).1) [
  | inr (x, e) ↦ rw (delete_step, e) refl
  | inl e ↦ rw (delete_step, e) (ground arith)
]

pub rows-drop_source :
    (ans : TaskAnswers) (dir : Bool) (k : Key) (w : Work)
    → rows (drop_source ans dir k w).0 ≡ rows w
unfolding drop_source
rows-drop_source ans true k w = refl
rows-drop_source ans false k w = rows-delete_step ans.delete false (deleted_src k) w

rows-drop_after :
    (env : WorkEnv) (ans : TaskAnswers) (o : Object) (r : Work × Option Failure)
    → rows (drop_after env ans o r).0 ≡ rows r.0
unfolding drop_after
rows-drop_after env ans o (w, some e) = refl
rows-drop_after env ans o (w, none) = ground (arith, rows-drop_source ans (is_dir o) (key o) w)

-- One row, or none.
abbrev pub grown : Bool → ℕ → ℕ
grown b n = if b then suc n else n

grown-not : (dry : Bool) (n : ℕ) → dry ≡ false → suc n ≡ grown (not dry) n
grown-not dry n real = ground (arith, real)

pub copy_task-Ends :
    (env : WorkEnv) (ans : TaskAnswers) (o : Object) (w : Work)
    → KeepsAll env
    → Capable env ans o
    → Ends (λ r. rows r.0 ≡ grown (not env.config.dry) (rows w)) (copy_task env ans o w)
unfolding copy_task
copy_task-Ends env ans o w keep can =
    Ends-if P env.config.dry _ _ (λ dry. simp dry refl) (λ real. copied real)
  where
    P : Work × Option Failure → Type 0
    P r = rows r.0 ≡ grown (not env.config.dry) (rows w)

    copied :
        env.config.dry ≡ false
        → Ends P (elim (copy_and_check env ans o w) [
          | none ↦ none
          | some (w', e) ↦ elim (note_copy env o e w') [
            | none ↦ none
            | some done ↦ some (drop_after env ans o done)
          ]
        ])
    copied real =
        let ((w', e), f, same) =
          Ends-some (λ r. rows r.0 ≡ rows w) (copy_and_check env ans o w)
            (copy_and_check-Ends env ans o w can) in
        let (done, g, more) =
          Ends-some (λ r. rows r.0 ≡ suc (rows w')) (note_copy env o e w')
            (note_copy-Ends env ans o e w' keep can) in
        rw (f, g)
          (rows-drop_after env ans o done
            ∙ (more ∙ (ap suc same ∙ grown-not env.config.dry (rows w) real)))

-- ===== src/Worker/Removal.antt =====
-- When a worker removes a source object.
use my_sync.Common.{
  ℕ, suc, ◌+◌, ◌≡◌, refl, ap, subst, ◌∙◌, Bool, true, false, not, ◌&&◌, ◌||◌, Option, none, some,
  arith, Bool-cases, Option-cases, inl, inr, ◌⊎◌, sum_by,
}
use my_sync.Common.Key.{Key}
use my_sync.Common.Int.{ℤ, eqb_ℤ}
use my_sync.Object.{
  Object, key, size, is_dir, is_symlink, without_size, need_copy_perms, mark_delete_src,
  mark_delete_dst, mark_copy_perms, mark_checksum,
}
use my_sync.Completion.{Failure, delete_obj}
use my_sync.Copy.{ok}
use my_sync.Copy.Sums.{Result-cases, some_injective}
use my_sync.Worker.{
  WorkEnv, Work, TaskAnswers, Change, deleted_src, deleted_dst, row_copied, row_skipped, row_failed,
  row_deleted, record_delete_result, count_failed, count_checked, delete_step, drop_source,
  copy_perms, finish_task,
}
use my_sync.Worker.Check.{check_sum}
use my_sync.Worker.Steps.{copy_task}
use my_sync.Worker.Task.{
  delete_task, perms_task, equal_task, verify, checksum_task, run_task, handle_task, drop_equal,
  align_perms, record_outcome, Recorded,
}
use my_sync.Worker.Counting.{
  Holds, Holds-if, is_removal, removals, removals-record_object, removals-copy_perms,
  removals-check_sum,
}
use my_sync.Worker.Removing.{
  Removes, CopiedOrSkipped, delete_step-removals, drop_source-removals, AfterCopy,
  copy_task-removals,
}

drop_equal-removals :
    (ans : TaskAnswers) (o : Object) (w : Work)
    → let w' = (drop_equal ans o w).0 in
      (removals w' ≡ removals w) ⊎ (removals w' ≡ suc (removals w))
drop_equal-removals ans o w = elim (Option-cases (drop_source ans (is_dir o) (key o) w).1) [
  | inl e ↦ rw (drop_equal, e) (drop_source-removals ans (is_dir o) (key o) w)
  | inr (x, e) ↦ rw (drop_equal, e) (drop_source-removals ans (is_dir o) (key o) w)
]

align_perms-removals :
    (env : WorkEnv) (ans : TaskAnswers) (o : Object) (w : Work)
    → Holds (λ r. removals r.0 ≡ removals w) (align_perms env ans o w)
align_perms-removals env ans o w = elim (Result-cases ans.head_dst) [
  | inr (x, e) ↦ rw (align_perms, e) refl
  | inl (d, e) ↦ elim (Option-cases (need_copy_perms o d)) [
    | inl f ↦ rw (align_perms, e, f) tt
    | inr (false, f) ↦ rw (align_perms, e, f) refl
    | inr (true, f) ↦ elim (Option-cases (copy_perms env o w)) [
      | inl g ↦ rw (align_perms, e, f, g) tt
      | inr (w', g) ↦ rw (align_perms, e, f, g) (rw g at (removals-copy_perms env o w))
    ]
  ]
]

record_outcome-removals :
    (Reason : Type 0) (env : WorkEnv) (o : Object) (w : Work) (out : Option Recorded)
    → Holds (λ r. Removes Reason w r.0) out
    → Holds (λ r. Removes Reason w r.0) (record_outcome env o out)
record_outcome-removals Reason env o w none h = tt
record_outcome-removals Reason env o w (some (w', e, status)) h =
    ground (arith, h, removals-record_object env (key o) (size o) status w')

equal_task-removals :
    (env : WorkEnv) (ans : TaskAnswers) (o : Object) (w : Work)
    → Holds (λ r. Removes (env.config.delete_src ≡ true) w r.0) (equal_task env ans o w)
unfolding equal_task
equal_task-removals env ans o w =
    record_outcome-removals (env.config.delete_src ≡ true) env o w _
      (elim (Bool-cases env.config.delete_src) [
        | inl e ↦ simp e (elim (drop_equal-removals ans o w) [
          | inl same ↦ inl same
          | inr more ↦ inr (more, refl)
        ])
        | inr e ↦
            elim (Bool-cases (env.config.perms && (not (is_symlink o) || not env.config.links))) [
              | inl f ↦
                  simp (e, f)
                    (no_removal env o w (align_perms env ans o w)
                      (align_perms-removals env ans o w))
              | inr f ↦ simp (e, f) (inl refl)
            ]
      ])
  where
    no_removal :
        (env : WorkEnv) (o : Object) (w : Work) (out : Option Recorded)
        → Holds (λ r. removals r.0 ≡ removals w) out
        → Holds (λ r. Removes (false ≡ true) w r.0) out
    no_removal env o w none h = tt
    no_removal env o w (some r) h = inl h

weaken :
    {P Q : Type 0} (w' w : Work)
    → removals w' ≡ removals w
    → (P → Q)
    → (out : Option (Work × Option Failure)) → Holds (λ r. Removes P w' r.0) out
    → Holds (λ r. Removes Q w r.0) out
weaken w' w same f none h = tt
weaken w' w same f (some r) (inl kept) = inl (kept ∙ same)
weaken w' w same f (some r) (inr (more, p)) = inr (more ∙ ap suc same, f p)

-- The comparison before the copy found both objects equal.
abbrev pub FoundEqual : WorkEnv → TaskAnswers → Object → Type 0
FoundEqual env ans o = (w : Work) × ((check_sum env o none ans.before w).1 ≡ ok true)

verify-removals :
    (env : WorkEnv) (ans : TaskAnswers) (o : Object) (w : Work)
    → Holds
        (λ r.
          Removes
            (((env.config.delete_src ≡ true) × FoundEqual env ans o) ⊎ AfterCopy env ans o)
            w
            r.0)
        (verify env ans o w)
verify-removals env ans o w =
    let w' = (check_sum env o none ans.before w).0 in
    let same = ap (sum_by is_removal) (removals-check_sum env o none ans.before w) in
    elim (Result-cases (check_sum env o none ans.before w).1) [
      | inr (x, e) ↦
          rw (verify, e)
            (inl (removals-record_object env (key o) (size o) row_failed (count_failed w') ∙ same))
      | inl (true, e) ↦
          rw (verify, e)
            (weaken w' w same (λ h. inl (h, (w, e))) (equal_task env ans o w')
              (equal_task-removals env ans o w'))
      | inl (false, e) ↦
          rw (verify, e)
            (weaken w' w same (λ h. inr h) (copy_task env ans o w')
              (copy_task-removals env ans o w'))
    ]

-- Why a task removes its source object: it is a task to do so, or it verifies under `--delete-src`
-- and both objects are equal, or `--delete-src-after` is set and the copy was made or skipped.
abbrev pub RemovalReason : WorkEnv → TaskAnswers → Object → Type 0
RemovalReason env ans o =
    (env.config.dry ≡ false)
    × ((eqb_ℤ (size o) mark_delete_src ≡ true)
        ⊎ ((env.config.delete_src ≡ true) × FoundEqual env ans (without_size o))
        ⊎ ((env.config.delete_src_after ≡ true)
            × (CopiedOrSkipped env ans o ⊎ CopiedOrSkipped env ans (without_size o))))

verified_or_copied :
    (env : WorkEnv) (ans : TaskAnswers) (o : Object)
    → env.config.dry ≡ false
    → ((env.config.delete_src ≡ true) × FoundEqual env ans (without_size o))
      ⊎ AfterCopy env ans (without_size o)
    → RemovalReason env ans o
verified_or_copied env ans o real (inl found) = (real, inr (inl found))
verified_or_copied env ans o real (inr (_, on, copied)) = (real, inr (inr (on, inr copied)))

checksum_task-removals :
    (env : WorkEnv) (ans : TaskAnswers) (o : Object) (w : Work)
    → Holds (λ r. Removes (RemovalReason env ans o) w r.0) (checksum_task env ans o w)
unfolding checksum_task
checksum_task-removals env ans o w =
    let o' = without_size o in
    Holds-if (λ r. Removes (RemovalReason env ans o) w r.0) env.config.dry _ _
      (λ dry. inl (removals-record_object env (key o) (size o') row_skipped (count_checked w)))
      (λ real.
        Holds-if (λ r. Removes (RemovalReason env ans o) w r.0)
          (env.config.check_all || (env.config.check_new || env.config.check_change)) _ _
          (λ checked.
            weaken w w refl (λ h. verified_or_copied env ans o real h) (verify env ans o' w)
              (verify-removals env ans o' w))
          (λ unchecked.
            weaken w w refl (λ h. verified_or_copied env ans o real (inr h))
              (copy_task env ans o' w) (copy_task-removals env ans o' w)))

record-same :
    (env : WorkEnv) (k : Key) (n : ℤ) (e : Option Failure) (w : Work)
    → removals (record_delete_result env k n e w) ≡ removals w
unfolding record_delete_result
record-same env k n none w = removals-record_object env k n row_deleted w
record-same env k n (some e) w = removals-record_object env k n row_failed w

delete_step-when :
    (delete : ℕ → Option Failure) (dry : Bool) (c : Change) (w : Work)
    → let w' = (delete_step delete dry c w).0 in
      (removals w' ≡ removals w) ⊎ ((removals w' ≡ removals w + is_removal c) × (dry ≡ false))
unfolding delete_step delete_obj
delete_step-when delete true c w = inl refl
delete_step-when delete false c w = elim (delete_step-removals delete c w) [
  | inl same ↦ inl same
  | inr more ↦ inr (more, refl)
]

delete_task-removals :
    (env : WorkEnv) (ans : TaskAnswers) (o : Object) (c : Change) (w : Work)
    → let w' = (delete_task env ans o c w).0 in
      (removals w' ≡ removals w)
      ⊎ ((removals w' ≡ removals w + is_removal c) × (env.config.dry ≡ false))
unfolding delete_task
delete_task-removals env ans o c w =
    let step = delete_step ans.delete env.config.dry c w in
    let recorded = record-same env (key o) (size (without_size o)) step.1 step.0 in
    elim (delete_step-when ans.delete env.config.dry c w) [
      | inl same ↦ inl (recorded ∙ same)
      | inr (more, real) ↦ inr (recorded ∙ more, real)
    ]

perms_task-removals :
    (env : WorkEnv) (o : Object) (w : Work)
    → Holds (λ r. removals r.0 ≡ removals w) (perms_task env o w)
unfolding perms_task
perms_task-removals env o w =
    Holds-if (λ r. removals r.0 ≡ removals w) env.config.dry _ _
      (λ dry. removals-record_object env (key o) (size (without_size o)) row_copied w)
      (λ real. elim (Option-cases (copy_perms env (without_size o) w)) [
        | inl e ↦ rw e tt
        | inr (w', e) ↦ rw e (rw e at (removals-copy_perms env (without_size o) w))
      ])

run_task-removals :
    (env : WorkEnv) (ans : TaskAnswers) (o : Object) (w : Work)
    → Holds (λ r. Removes (RemovalReason env ans o) w r.0) (run_task env ans o w)
unfolding run_task
run_task-removals env ans o w =
    Holds-if P (eqb_ℤ (size o) mark_delete_src) _ _
      (λ marked. elim (delete_task-removals env ans o (deleted_src (key o)) w) [
        | inl same ↦ inl same
        | inr (more, real) ↦ inr (omega (arith, more), (real, inl marked))
      ])
      (λ a.
        Holds-if P (eqb_ℤ (size o) mark_delete_dst) _ _
          (λ marked. elim (delete_task-removals env ans o (deleted_dst (key o)) w) [
            | inl same ↦ inl same
            | inr (more, real) ↦ inl (omega (arith, more))
          ])
          (λ b.
            Holds-if P (eqb_ℤ (size o) mark_copy_perms) _ _
              (λ marked. kept (perms_task env o w) (perms_task-removals env o w))
              (λ c.
                Holds-if P (eqb_ℤ (size o) mark_checksum) _ _
                  (λ marked. checksum_task-removals env ans o w)
                  (λ d.
                    weaken w w refl (λ h. (h.0, inr (inr (h.1, inl h.2)))) (copy_task env ans o w)
                      (copy_task-removals env ans o w)))))
  where
    P : Work × Option Failure → Type 0
    P r = Removes (RemovalReason env ans o) w r.0

    kept :
        (out : Option (Work × Option Failure))
        → Holds (λ r. removals r.0 ≡ removals w) out
        → Holds P out
    kept none h = tt
    kept (some r) h = inl h

-- A task removes at most one source object, never in a dry run, and only as a task to do so, or
-- after a comparison under `--delete-src` that found both objects equal, or under
-- `--delete-src-after` once the copy with its checks went well or was skipped.
pub handle_task-removals :
    (env : WorkEnv) (ans : TaskAnswers) (o : Object) (w w' : Work)
    → handle_task env ans o w ≡ some w'
    → Removes (RemovalReason env ans o) w w'
unfolding handle_task
handle_task-removals env ans o w w' e = elim (Option-cases (run_task env ans o w)) [
  | inl f ↦ cc (rw (handle_task, f) at e)
  | inr ((done, failed), f) ↦
      subst (Removes (RemovalReason env ans o) w)
        (some_injective (finish_task env (key o) failed done) w' (rw (handle_task, f) at e))
        (rw f at (run_task-removals env ans o w))
]

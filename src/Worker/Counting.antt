-- ===== src/Worker/Counting.antt =====
-- The changes that the steps of a task make, counted by kind.
use my_sync.Common.{
  ℕ, ◌+◌, ◌≡◌, refl, ap, ◌∙◌, Bool, true, false, ◌&&◌, Option, none, some, [], ◌∷◌, arith,
  Bool-cases, Option-cases, inl, inr, ◌⊎◌, sum_by, sum_by-append, if◌then◌else◌,
}
use my_sync.Common.Key.{Key}
use my_sync.Object.{Object, key, as_file, size, is_symlink}
use my_sync.Gate.{SyncRecord, record_success, record_failure}
use my_sync.Uploads.{Store}
use my_sync.Common.Int.{ℤ, pos}
use my_sync.Completion.{
  Failure, err_skipped, err_extlink, errno_not_exist, err_not_exist, errno_temporary, errno_other,
  err_other,
}
use my_sync.Copy.Sums.{Result-cases}
use my_sync.Copy.Data.{copy_data}
use my_sync.Worker.{
  uploads_of, row_copied, row_failed, row_skipped, count_copied, count_failed, count_skipped,
  WorkEnv, Work, TaskAnswers, Change, deleted_src, deleted_dst, copied_to, linked_to, owner_set,
  mode_set, ObjectStatus, Reads, record_object, copy_perms, with_uploads, gate_record, changed,
}
use my_sync.Worker.Check.{check_sum, check_change, checks}
use my_sync.Worker.Steps.{
  job_of, check_if, perms_if, verify_copy, note_failure, copy_link, transfer, after_copy,
  copy_and_check, note_success, note_copy,
}

-- What holds of a step's outcome, if it is not a panic.
abbrev pub Holds {ℓ κ} : {A : Type ℓ} → (A → Type κ) → Option A → Type κ
Holds P none = Unit
Holds P (some a) = P a

-- The step is no panic, and this holds of its outcome.
abbrev pub Ends {ℓ} : {A : Type ℓ} → (A → Type 0) → Option A → Type 0
Ends P none = false ≡ true
Ends P (some a) = P a

pub Ends-some {ℓ} :
    {A : Type ℓ} (P : A → Type 0) (out : Option A) → Ends P out → (a : A) × (out ≡ some a) × P a
Ends-some P none h = cc h
Ends-some P (some a) h = (a, refl, h)

pub Ends-if {ℓ} :
    {A : Type ℓ} (P : A → Type 0) (b : Bool) (x y : Option A)
    → (b ≡ true → Ends P x)
    → (b ≡ false → Ends P y)
    → Ends P (if b then x else y)
Ends-if P true x y h g = h refl
Ends-if P false x y h g = g refl

pub Holds-if {ℓ κ} :
    {A : Type ℓ} (P : A → Type κ) (b : Bool) (x y : Option A)
    → (b ≡ true → Holds P x)
    → (b ≡ false → Holds P y)
    → Holds P (if b then x else y)
Holds-if P true x y h g = h refl
Holds-if P false x y h g = g refl

-- Removals of sources.
abbrev pub is_removal : Change → ℕ
is_removal (deleted_src k) = 1
is_removal _ = 0

abbrev pub removals : Work → ℕ
removals w = sum_by is_removal w.changes

pub removals-changed : (c : Change) (w : Work) → removals (changed c w) ≡ removals w + is_removal c
removals-changed c w = omega (arith, sum_by-append is_removal w.changes (c ∷ []))

pub removals-record_object :
    (env : WorkEnv) (k : Key) (n : ℤ) (status : ObjectStatus) (w : Work)
    → removals (record_object env k n status w) ≡ removals w
unfolding record_object
removals-record_object env k n status w = ground arith

removals-gate_record :
    (env : WorkEnv) (rec : SyncRecord) (w : Work) → removals (gate_record env rec w) ≡ removals w
removals-gate_record env rec w = ground arith

pub removals-copy_perms :
    (env : WorkEnv) (o : Object) (w : Work)
    → Holds (λ w'. removals w' ≡ removals w) (copy_perms env o w)
unfolding copy_perms
removals-copy_perms env o w = elim (Option-cases (as_file o)) [
  | inl e ↦ rw (copy_perms, e) tt
  | inr (f, e) ↦
      rw (copy_perms, e)
        (let owned = changed (owner_set (key o) f.owner f.group) w in
          ground (
            arith,
            removals-changed (mode_set (key o) f.mode) owned,
            removals-changed (owner_set (key o) f.owner f.group) w,
          ))
]

pub removals-check_sum :
    (env : WorkEnv) (o : Object) (sum : Option ℕ) (reads : ℕ → Reads) (w : Work)
    → (check_sum env o sum reads w).0.changes ≡ w.changes
unfolding check_sum
removals-check_sum env o sum reads w = ground arith

removals-with_uploads : (s : Option Store) (w : Work) → (with_uploads s w).changes ≡ w.changes
removals-with_uploads s w = ground arith

removals-copy_link :
    (env : WorkEnv) (ans : TaskAnswers) (o : Object) (w : Work)
    → Holds (λ r. removals r.0 ≡ removals w) (copy_link env ans o w)
unfolding copy_link
removals-copy_link env ans o w = elim (Result-cases ans.read_link) [
  | inr (x, e) ↦ rw (copy_link, e) (ground arith)
  | inl (link, e) ↦
      rw (copy_link, e)
        (let removed = changed (deleted_dst (key o)) w in
          ground (
            arith,
            removals-changed (deleted_dst (key o)) w,
            removals-changed (linked_to (key o)) removed,
          ))
]

removals-transfer :
    (env : WorkEnv) (ans : TaskAnswers) (o : Object) (w : Work)
    → Holds (λ r. removals r.0 ≡ removals w) (transfer env ans o w)
unfolding transfer
removals-transfer env ans o w =
    let out = copy_data env.crc env.ends (job_of env.config o) (uploads_of w) ans.copy in
    let kept = ap (sum_by is_removal) (removals-with_uploads out.store w) in
    elim (Bool-cases (env.config.links && is_symlink o)) [
      | inl e ↦ rw (transfer, e) (removals-copy_link env ans o w)
      | inr e ↦ elim (Result-cases out.result) [
        | inl (sum, r) ↦
            rw (transfer, e, r)
              (omega (arith, kept, removals-changed (copied_to (key o)) (with_uploads out.store w)))
        | inr (x, r) ↦ rw (transfer, e, r) kept
      ]
    ]

removals-check_change :
    (env : WorkEnv) (ans : TaskAnswers) (o : Object) (w : Work)
    → (check_change env ans o w).0.changes ≡ w.changes
unfolding check_change
removals-check_change env ans o w = ground arith

removals-check_if :
    (b : Bool) (env : WorkEnv) (ans : TaskAnswers) (o : Object) (w : Work)
    → (check_if b env ans o w).0.changes ≡ w.changes
removals-check_if true env ans o w = removals-check_change env ans o w
removals-check_if false env ans o w = refl

removals-after_copy :
    (env : WorkEnv) (ans : TaskAnswers) (o : Object) (sum : ℕ) (w : Work)
    → (after_copy env ans o sum w).0.changes ≡ w.changes
unfolding after_copy
removals-after_copy env ans o sum w =
    elim (Option-cases (check_if env.config.check_change env ans o w).1) [
      | inr (x, r) ↦ rw (after_copy, r) (removals-check_if env.config.check_change env ans o w)
      | inl r ↦
          rw (after_copy, r)
            (verified env ans o sum (check_if env.config.check_change env ans o w).0
              ∙ removals-check_if env.config.check_change env ans o w)
    ]
  where
    verified :
        (env : WorkEnv) (ans : TaskAnswers) (o : Object) (sum : ℕ) (w : Work)
        → (if checks env.config then verify_copy env ans o sum w else (w, none)).0.changes
          ≡ w.changes
    verified env ans o sum w = ground (arith, removals-check_sum env o (some sum) ans.after w)

pub removals-copy_and_check :
    (env : WorkEnv) (ans : TaskAnswers) (o : Object) (w : Work)
    → Holds (λ r. removals r.0 ≡ removals w) (copy_and_check env ans o w)
unfolding copy_and_check
removals-copy_and_check env ans o w = elim (Option-cases (transfer env ans o w)) [
  | inl e ↦ rw (copy_and_check, e) tt
  | inr ((w', r), e) ↦
      let before : removals w' ≡ removals w = rw e at (removals-transfer env ans o w) in
      elim (Result-cases r) [
        | inr (x, f) ↦ rw (copy_and_check, e, f) before
        | inl (sum, f) ↦
            rw (copy_and_check, e, f)
              (ap (sum_by is_removal) (removals-after_copy env ans o sum w') ∙ before)
      ]
]

removals-perms_if :
    (b : Bool) (env : WorkEnv) (o : Object) (w : Work)
    → Holds (λ w'. removals w' ≡ removals w) (perms_if b env o w)
removals-perms_if true env o w = removals-copy_perms env o w
removals-perms_if false env o w = refl

removals-note_success :
    (env : WorkEnv) (o : Object) (w : Work)
    → Holds (λ w'. removals w' ≡ removals w) (note_success env o w)
unfolding note_success
removals-note_success env o w = elim (Option-cases (perms_if env.config.perms env o w)) [
  | inl f ↦ rw (note_success, f) tt
  | inr (w', f) ↦
      rw (note_success, f) (noted w' ∙ (rw f at (removals-perms_if env.config.perms env o w)))
]
  where
    noted :
        (w : Work)
        → removals (
            gate_record env
              (record_success o (pos 0))
              (record_object env (key o) (size o) row_copied (count_copied w)))
          ≡ removals w
    noted w =
        removals-gate_record env (record_success o (pos 0))
          (record_object env (key o) (size o) row_copied (count_copied w))
        ∙ removals-record_object env (key o) (size o) row_copied (count_copied w)

removals-note_failure :
    (env : WorkEnv) (o : Object) (e : Failure) (w : Work)
    → removals (note_failure env o e w) ≡ removals w
removals-note_failure env o e w =
    removals-gate_record env (record_failure o (some (env.message e)) (pos 0))
      (record_object env (key o) (size o) row_failed (count_failed w))
    ∙ removals-record_object env (key o) (size o) row_failed (count_failed w)

-- Noting a copy removes nothing, and leaves an error of the task only where there was one.
pub removals-note_copy :
    (env : WorkEnv) (o : Object) (e : Option Failure) (w : Work)
    → Holds
        (λ r. (removals r.0 ≡ removals w) × (r.1 ≡ none → (e ≡ none) ⊎ (e ≡ some err_skipped)))
        (note_copy env o e w)
unfolding note_copy
removals-note_copy env o none w = elim (Option-cases (note_success env o w)) [
  | inl f ↦ rw (note_copy, f) tt
  | inr (w', f) ↦ rw (note_copy, f) ((rw f at (removals-note_success env o w)), λ h. inl refl)
]
removals-note_copy env o (some err_skipped) w =
    (removals-record_object env (key o) (size o) row_skipped (count_skipped w), λ h. inr refl)
removals-note_copy env o (some err_extlink) w =
    (removals-note_failure env o err_extlink w, λ h. cc h)
removals-note_copy env o (some errno_not_exist) w =
    (removals-note_failure env o errno_not_exist w, λ h. cc h)
removals-note_copy env o (some err_not_exist) w =
    (removals-note_failure env o err_not_exist w, λ h. cc h)
removals-note_copy env o (some errno_temporary) w =
    (removals-note_failure env o errno_temporary w, λ h. cc h)
removals-note_copy env o (some errno_other) w =
    (removals-note_failure env o errno_other w, λ h. cc h)
removals-note_copy env o (some err_other) w = (removals-note_failure env o err_other w, λ h. cc h)

-- ===== src/Worker/Removing.antt =====
-- When a copy removes its source object.
use my_sync.Common.{
  ℕ, suc, ◌+◌, ◌≡◌, refl, ap, ◌∙◌, Bool, true, false, Option, none, some, arith, Bool-cases,
  Option-cases, inl, inr, ◌⊎◌,
}
use my_sync.Common.Key.{Key}
use my_sync.Object.{Object, key, is_dir}
use my_sync.Completion.{Failure, err_skipped, delete_obj}
use my_sync.Worker.{WorkEnv, Work, TaskAnswers, Change, deleted_src, delete_step, drop_source}
use my_sync.Worker.Steps.{copy_and_check, note_copy, drop_after, copy_task}
use my_sync.Worker.Counting.{
  Holds, is_removal, removals, removals-changed, removals-copy_and_check, removals-note_copy,
}

-- Nothing was removed, or one object for the given reason.
abbrev pub Removes {ℓ} : Type ℓ → Work → Work → Type ℓ
Removes Reason w w' = (removals w' ≡ removals w) ⊎ ((removals w' ≡ suc (removals w)) × Reason)

-- The copy with its checks went well, or was skipped.
abbrev pub CopiedOrSkipped : WorkEnv → TaskAnswers → Object → Type 0
CopiedOrSkipped env ans o =
    (before after : Work) × ((copy_and_check env ans o before ≡ some (after, none))
      ⊎ (copy_and_check env ans o before ≡ some (after, some err_skipped)))

pub delete_step-removals :
    (delete : ℕ → Option Failure) (c : Change) (w : Work)
    → let w' = (delete_step delete false c w).0 in
      (removals w' ≡ removals w) ⊎ (removals w' ≡ removals w + is_removal c)
unfolding delete_step
delete_step-removals delete c w =
    let ds = (delete_obj delete false w.deletions).0 in
    elim (Option-cases (delete_obj delete false w.deletions).1) [
      | inl e ↦ rw (delete_step, e) (inr (removals-changed c (record w { deletions = ds })))
      | inr (x, e) ↦ rw (delete_step, e) (inl refl)
    ]

pub drop_source-removals :
    (ans : TaskAnswers) (dir : Bool) (k : Key) (w : Work)
    → let w' = (drop_source ans dir k w).0 in
      (removals w' ≡ removals w) ⊎ (removals w' ≡ suc (removals w))
unfolding drop_source
drop_source-removals ans true k w = inl refl
drop_source-removals ans false k w =
    ground (arith, delete_step-removals ans.delete (deleted_src k) w)

-- What a copy is removed for.
abbrev pub AfterCopy : WorkEnv → TaskAnswers → Object → Type 0
AfterCopy env ans o =
    (env.config.dry ≡ false) × (env.config.delete_src_after ≡ true) × CopiedOrSkipped env ans o

drop_after-removals :
    (env : WorkEnv) (ans : TaskAnswers) (o : Object) (w : Work) (e : Option Failure)
    → Removes ((e ≡ none) × (env.config.delete_src_after ≡ true)) w (drop_after env ans o (w, e)).0
unfolding drop_after
drop_after-removals env ans o w (some e) = inl refl
drop_after-removals env ans o w none = elim (Bool-cases env.config.delete_src_after) [
  | inr f ↦ rw (drop_after, f) (inl refl)
  | inl f ↦ rw (drop_after, f) (ground (arith, drop_source-removals ans (is_dir o) (key o) w))
]

pub copy_task-removals :
    (env : WorkEnv) (ans : TaskAnswers) (o : Object) (w : Work)
    → Holds (λ r. Removes (AfterCopy env ans o) w r.0) (copy_task env ans o w)
unfolding copy_task
copy_task-removals env ans o w = elim (Bool-cases env.config.dry) [
  | inl dry ↦ simp (copy_task, dry) (inl refl)
  | inr real ↦ elim (Option-cases (copy_and_check env ans o w)) [
    | inl f ↦ simp (copy_task, real, f) tt
    | inr ((w', e), f) ↦ elim (Option-cases (note_copy env o e w')) [
      | inl g ↦ simp (copy_task, real, f, g) tt
      | inr ((w'', e'), g) ↦
          let copied : removals w' ≡ removals w = rw f at (removals-copy_and_check env ans o w) in
          let noted = rw g at (removals-note_copy env o e w') in
          simp (copy_task, real, f, g)
            (elim (drop_after-removals env ans o w'' e') [
              | inl same ↦ inl (same ∙ (noted.0 ∙ copied))
              | inr (more, (fine, on)) ↦ inr (
                more ∙ ap suc (noted.0 ∙ copied),
                (
                  refl,
                  on,
                  (
                    w,
                    w',
                    elim (noted.1 fine) [
                      | inl h ↦ inl (f ∙ ap (λ x. some (w', x)) h)
                      | inr h ↦ inr (f ∙ ap (λ x. some (w', x)) h)
                    ],
                  ),
                ),
              )
            ])
    ]
  ]
]

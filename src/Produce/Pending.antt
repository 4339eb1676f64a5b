-- ===== src/Produce/Pending.antt =====
-- What the checkpoint knows of the tasks that `produce` sends.
use mathlib.Core.Option
use my_sync.Common.{
  ◌≡◌, sym, subst, ◌∙◌, true, Option, none, some, List, [], ◌∷◌, ◌++◌, arith, All, All-append,
  Bool-cases, inl, inr,
}
use my_sync.Common.Int.{ℤ}
use my_sync.Common.Key.{Key}
use my_sync.Object.{Object, key, with_size, is_dir, mark_delete_dst}
use my_sync.Gate.{record_skip}
use my_sync.Filter.{Stream}
use my_sync.Filter.Laws.{objects}
use my_sync.Checkpoint.{Manager, add_pending_key, update_last_listed_key, mark_list_done}
use my_sync.Checkpoint.Outstanding.{
  is_outstanding, is_outstanding-add_pending_key, is_outstanding-update_last_listed_key,
  is_outstanding-mark_list_done,
}
use my_sync.Produce.Compare.{
  Env, Verdict, send, skip, delay_src, assertion, send_marked, skip_recorded,
}
use my_sync.Produce.Effects.{
  State, perform, send_task, skip_it, delay_source, note_last_listed, untrack_scanned, incr_handled,
  record_skipped, track_scanned, incr_total, list_ended,
}
use my_sync.Produce.Extra.{handle_extra, delete_extra, limit_decr}
use my_sync.Produce.Frame.{handle_extra_cases}
use my_sync.Produce.Rule.{Keeps, EndsIn, any_met, any_source, produce-In}
use my_sync.Produce.{Gated, claimed, produce}

-- The keys of the tasks are outstanding under the prefix, if there is a checkpoint.
abbrev pub AllOutstanding : Key → Option Manager → List Object → Type 0
AllOutstanding p none tasks = Unit
AllOutstanding p (some m) tasks = All (λ t. is_outstanding m p (key t) ≡ true) tasks

abbrev pub IsRecorded : Env → State → Type 0
IsRecorded env st = AllOutstanding env.prefix st.manager st.tasks

weaken_tasks :
    (m m' : Manager) (p : Key) (tasks : List Object)
    → ((k : Key) → is_outstanding m p k ≡ true → is_outstanding m' p k ≡ true)
    → All (λ t. is_outstanding m p (key t) ≡ true) tasks
    → All (λ t. is_outstanding m' p (key t) ≡ true) tasks
weaken_tasks m m' p [] f h = tt
weaken_tasks m m' p (t ∷ tasks) f h = (f (key t) h.0, weaken_tasks m m' p tasks f h.1)

after_listing :
    (p : Key) (o : Object) (manager : Option Manager) (tasks : List Object)
    → AllOutstanding p manager tasks
    → AllOutstanding p (Option.map (λ m. update_last_listed_key m p o) manager) tasks
after_listing p o none tasks h = tt
after_listing p o (some m) tasks h =
    weaken_tasks m (update_last_listed_key m p o) p tasks
      (λ k e. is_outstanding-update_last_listed_key m p p k o ∙ e) h

after_list_end :
    (p : Key) (manager : Option Manager) (tasks : List Object)
    → AllOutstanding p manager tasks
    → AllOutstanding p (Option.map (λ m. mark_list_done m p) manager) tasks
after_list_end p none tasks h = tt
after_list_end p (some m) tasks h =
    weaken_tasks m (mark_list_done m p) p tasks (λ k e. is_outstanding-mark_list_done m p p k ∙ e) h

after_sending :
    (p : Key) (o : Object) (manager : Option Manager) (tasks : List Object)
    → AllOutstanding p manager tasks
    → AllOutstanding p (Option.map (λ m. add_pending_key m p o) manager) (tasks ++ (o ∷ []))
after_sending p o none tasks h = tt
after_sending p o (some m) tasks h =
    All-append (λ t. is_outstanding (add_pending_key m p o) p (key t) ≡ true) tasks (o ∷ [])
      (weaken_tasks m (add_pending_key m p o) p tasks
        (λ k e. is_outstanding-add_pending_key m p p k o ∙ ground (arith, e)) h)
      (is_outstanding-add_pending_key m p p (key o) o ∙ ground arith, tt)

send_task-IsRecorded :
    (env : Env) (o : Object) (st : State) → IsRecorded env st → IsRecorded env (send_task env o st)
unfolding send_task
send_task-IsRecorded env o st h = after_sending env.prefix o st.manager st.tasks h

delete_extra-IsRecorded :
    (env : Env) (d : Object) (st : State)
    → IsRecorded env st
    → IsRecorded env (delete_extra env d st)
unfolding delete_extra
delete_extra-IsRecorded env d st h = elim (Bool-cases (is_dir d)) [
  | inl e ↦ rw e h
  | inr e ↦ rw e (send_task-IsRecorded env (with_size d mark_delete_dst) st h)
]

handle_extra-IsRecorded :
    (env : Env) (d : Object) (st : State)
    → IsRecorded env st
    → IsRecorded env (handle_extra env d st).1
unfolding incr_total limit_decr
handle_extra-IsRecorded env d st h =
    handle_extra_cases (λ r. IsRecorded env r.1) env d st h h
      (λ _. delete_extra-IsRecorded env d (limit_decr (incr_total st)) h)

-- What a skip does to the manager and the tasks.
pub skipped_manager :
    (env : Env) (o : Object) (st : State)
    → ((skip_it env o st).manager
        ≡ Option.map (λ m. update_last_listed_key m env.prefix o) st.manager)
      × ((skip_it env o st).tasks ≡ st.tasks)
unfolding skip_it note_last_listed untrack_scanned incr_handled record_skipped
skipped_manager env o st = ground arith

skip_it-IsRecorded :
    (env : Env) (o : Object) (st : State) → IsRecorded env st → IsRecorded env (skip_it env o st)
skip_it-IsRecorded env o st h =
    subst (λ m. AllOutstanding env.prefix m (skip_it env o st).tasks)
      (sym (skipped_manager env o st).0)
      (subst
        (λ ts.
          AllOutstanding env.prefix
            (Option.map (λ m. update_last_listed_key m env.prefix o) st.manager) ts)
        (sym (skipped_manager env o st).1) (after_listing env.prefix o st.manager st.tasks h))

pub claimed_manager :
    (o : Object) (left : ℤ) (st : State)
    → ((claimed o left st).manager ≡ st.manager) × ((claimed o left st).tasks ≡ st.tasks)
unfolding track_scanned incr_total
claimed_manager o left st = ground arith

claimed-IsRecorded :
    (env : Env) (o : Object) (left : ℤ) (st : State)
    → IsRecorded env st
    → IsRecorded env (claimed o left st)
claimed-IsRecorded env o left st h =
    subst (λ m. AllOutstanding env.prefix m (claimed o left st).tasks)
      (sym (claimed_manager o left st).0)
      (subst (AllOutstanding env.prefix st.manager) (sym (claimed_manager o left st).1) h)

some_injective {ℓ} : {A : Type ℓ} (x y : A) → some x ≡ some y → x ≡ y
some_injective x y h = cc

delay_source-IsRecorded :
    (env : Env) (o : Object) (st : State)
    → IsRecorded env st
    → IsRecorded env (delay_source env o st)
unfolding delay_source note_last_listed
delay_source-IsRecorded env o st h = after_listing env.prefix o st.manager st.tasks h

perform-IsRecorded :
    (env : Env) (o : Object) (v : Verdict) (st st' : State)
    → perform env o v st ≡ some st'
    → IsRecorded env st
    → IsRecorded env st'
unfolding perform
perform-IsRecorded env o send st st' e h =
    subst (IsRecorded env) (some_injective (send_task env o st) st' e)
      (send_task-IsRecorded env o st h)
perform-IsRecorded env o skip st st' e h =
    subst (IsRecorded env) (some_injective (skip_it env o st) st' e) (skip_it-IsRecorded env o st h)
perform-IsRecorded env o delay_src st st' e h =
    subst (IsRecorded env) (some_injective (delay_source env o st) st' e)
      (delay_source-IsRecorded env o st h)
perform-IsRecorded env o assertion st st' e h = cc
perform-IsRecorded env o (send_marked mark) st st' e h =
    subst (IsRecorded env) (some_injective (send_task env (with_size o mark) st) st' e)
      (send_task-IsRecorded env (with_size o mark) st h)
perform-IsRecorded env o (skip_recorded n) st st' e h =
    let noted = record st { gate_records = st.gate_records ++ (record_skip o n ∷ []) } in
    subst (IsRecorded env) (some_injective (skip_it env o noted) st' e)
      (skip_it-IsRecorded env o noted h)

IsRecorded-Keeps :
    (env : Env) → Keeps env (λ (d : Object). Unit {0}) (IsRecorded env) (IsRecorded env)
unfolding note_last_listed list_ended
IsRecorded-Keeps env = record {
  noted = λ o st h. after_listing env.prefix o st.manager st.tasks h;
  claims = λ o left st e h. claimed-IsRecorded env o left st h;
  extra_claimed = λ d st _ h. handle_extra-IsRecorded env d st h;
  extra_between = λ d st _ h. handle_extra-IsRecorded env d st h;
  performs = λ o v st st' _. perform-IsRecorded env o v st st';
  ends = λ st h. after_list_end env.prefix st.manager st.tasks h;
  ends_claimed = λ st h. after_list_end env.prefix st.manager st.tasks h;
}

-- However `produce` ends, the key of every task that it has sent, a deletion at the destination
-- included, is outstanding in the checkpoint under the prefix, if there is a checkpoint and the
-- earlier tasks are.
pub produce-IsRecorded :
    (env : Env) (src : List Gated) (dst : Stream) (st : State)
    → IsRecorded env st
    → EndsIn (IsRecorded env) (IsRecorded env) (produce env src dst st)
produce-IsRecorded env src dst st h =
    produce-In env (λ (d : Object). Unit {0}) (IsRecorded env) (IsRecorded env)
      (IsRecorded-Keeps env) src dst st (any_source src) (any_met (objects dst)) h

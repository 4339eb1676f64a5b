-- ===== src/Produce/Managed.antt =====
-- What `produce` does to the checkpoint: three operations on its own prefix.
use mathlib.Core.Option
use my_sync.Common.{sym, subst, Option, none, some, List, ◌⊎◌, inl, inr, Bool-cases}
use my_sync.Common.Key.{Key}
use my_sync.Object.{Object, with_size, is_dir, mark_delete_dst}
use my_sync.Filter.{Stream}
use my_sync.Filter.Laws.{objects}
use my_sync.Checkpoint.{Manager, add_pending_key, update_last_listed_key, mark_list_done}
use my_sync.Produce.Compare.{
  Env, Verdict, send, skip, delay_src, assertion, send_marked, skip_recorded,
}
use my_sync.Produce.Effects.{
  State, perform, send_task, skip_it, delay_source, note_last_listed, incr_total, list_ended,
}
use my_sync.Produce.Extra.{handle_extra, delete_extra, limit_decr}
use my_sync.Produce.Frame.{handle_extra_cases}
use my_sync.Produce.Rule.{Keeps, EndsIn, any_met, any_source, produce-In}
use my_sync.Produce.Pending.{skipped_manager, claimed_manager}
use my_sync.Produce.{Gated, Ended, finished, stopped, failed, panicked, produce}

-- What the operations on the prefix `p` keep of a checkpoint, which may not be there.
pub record KeptBy (p : Key) (P : Option Manager → Type 0) : Type 0 where
  pub lists :
      (o : Object) (m : Option Manager) → P m → P (Option.map (λ m. update_last_listed_key m p o) m)
  pub adds : (o : Object) (m : Option Manager) → P m → P (Option.map (λ m. add_pending_key m p o) m)
  pub ends : (m : Option Manager) → P m → P (Option.map (λ m. mark_list_done m p) m)

abbrev pub EndsManaged : (Option Manager → Type 0) → Ended → Type 0
EndsManaged P (finished st) = P st.manager
EndsManaged P (stopped st) = P st.manager
EndsManaged P (failed st) = P st.manager
EndsManaged P (panicked st) = P st.manager

module _ (env : Env) (P : Option Manager → Type 0) (kept : KeptBy env.prefix P) where
  abbrev Managed : State → Type 0
  Managed st = P st.manager

  send_task-Managed : (o : Object) (st : State) → Managed st → Managed (send_task env o st)
  unfolding send_task
  send_task-Managed o st h = kept.adds o st.manager h

  skip_it-Managed : (o : Object) (st : State) → Managed st → Managed (skip_it env o st)
  skip_it-Managed o st h = subst P (sym (skipped_manager env o st).0) (kept.lists o st.manager h)

  delete_extra-Managed : (d : Object) (st : State) → Managed st → Managed (delete_extra env d st)
  unfolding delete_extra
  delete_extra-Managed d st h = elim (Bool-cases (is_dir d)) [
    | inl e ↦ rw e h
    | inr e ↦ rw e (send_task-Managed (with_size d mark_delete_dst) st h)
  ]

  handle_extra-Managed : (d : Object) (st : State) → Managed st → Managed (handle_extra env d st).1
  unfolding incr_total limit_decr
  handle_extra-Managed d st h =
      handle_extra_cases (λ r. Managed r.1) env d st h h
        (λ _. delete_extra-Managed d (limit_decr (incr_total st)) h)

  Performed : State → Option State → Type 0
  Performed st none = Unit
  Performed st (some st') = Managed st'

  perform-Managed :
      (o : Object) (v : Verdict) (st : State) → Managed st → Performed st (perform env o v st)
  unfolding perform Performed delay_source note_last_listed
  perform-Managed o send st h = send_task-Managed o st h
  perform-Managed o (send_marked mark) st h = send_task-Managed (with_size o mark) st h
  perform-Managed o skip st h = skip_it-Managed o st h
  perform-Managed o (skip_recorded n) st h = skip_it-Managed o (record st { gate_records = _ }) h
  perform-Managed o delay_src st h = kept.lists o st.manager h
  perform-Managed o assertion st h = tt

  Managed-Keeps : Keeps env (λ (d : Object). Unit {0}) Managed Managed
  unfolding note_last_listed list_ended Performed
  Managed-Keeps = record {
    noted = λ o st h. kept.lists o st.manager h;
    claims = λ o left st e h. subst P (sym (claimed_manager o left st).0) h;
    extra_claimed = λ d st _ h. handle_extra-Managed d st h;
    extra_between = λ d st _ h. handle_extra-Managed d st h;
    performs = λ o v st st' _ e h. subst (Performed st) e (perform-Managed o v st h);
    ends = λ st h. kept.ends st.manager h;
    ends_claimed = λ st h. kept.ends st.manager h;
  }

  either : {A : Type 0} → A ⊎ A → A
  either (inl a) = a
  either (inr a) = a

  -- However `produce` ends.
  pub produce-Managed :
      (src : List Gated) (dst : Stream) (st : State)
      → Managed st
      → EndsManaged P (produce env src dst st)
  produce-Managed src dst st h = ended (produce env src dst st) (
      produce-In env (λ (d : Object). Unit {0}) Managed Managed Managed-Keeps src dst st
        (any_source src) (any_met (objects dst)) h)
    where
      ended : (e : Ended) → EndsIn Managed Managed e → EndsManaged P e
      ended (finished st) h = h
      ended (stopped st) h = either h
      ended (failed st) h = either h
      ended (panicked st) h = h

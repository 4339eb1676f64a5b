-- ===== src/Produce/Frame.antt =====
-- What each step of `produce` changes of the tasks, the delayed removals and the limit, and what
-- it leaves.
use mathlib.Core.List.{append-nil}
use my_sync.Gate.{record_skip}
use my_sync.Common.{
  ℕ, suc, ◌≡◌, Bool, false, some, List, [], ◌∷◌, ◌++◌, arith, Bool-cases, inl, inr,
}
use my_sync.Common.Int.{ℤ, pos, ◌+ℤ◌, eqb_ℤ}
use my_sync.Object.{Object, size, with_size}
use my_sync.Produce.Compare.{
  Env, Verdict, send, skip, delay_src, assertion, send_marked, skip_recorded,
}
use my_sync.Produce.Effects.{
  State, send_task, perform, skip_it, delay_source, note_last_listed, untrack_scanned, incr_handled,
  record_skipped, track_scanned, incr_total,
}
use my_sync.Produce.Extra.{handle_extra, delete_extra, limit_decr, only_counted, is_own_checkpoint}

-- What the merge has sent, what it will delete at the end, and what is left of the limit.
pub record Sent : Type 0 where
  pub tasks : List Object
  pub dst_delay_del : List (List ℕ)
  pub limit : ℤ

abbrev pub sent_of : State → Sent
sent_of st = record { tasks = st.tasks; dst_delay_del = st.dst_delay_del; limit = st.limit }

pub sent-track_scanned : (k : List ℕ) (st : State) → sent_of (track_scanned k st) ≡ sent_of st
unfolding track_scanned
sent-track_scanned k st = ground arith

pub sent-skip_it : (env : Env) (o : Object) (st : State) → sent_of (skip_it env o st) ≡ sent_of st
unfolding skip_it note_last_listed untrack_scanned incr_handled record_skipped
sent-skip_it env o st = ground arith

-- A task of an object, sent as it is or under one of three marks, or none.
abbrev pub sent_by : Object → Verdict → List Object
sent_by o send = o ∷ []
sent_by o (send_marked mark) = with_size o mark ∷ []
sent_by o _ = []

pub sent-perform :
    (env : Env) (o : Object) (v : Verdict) (st st' : State)
    → perform env o v st ≡ some st'
    → sent_of st' ≡ record (sent_of st) { tasks = st.tasks ++ sent_by o v }
unfolding perform send_task delay_source note_last_listed
sent-perform env o send st st' h = ground arith
sent-perform env o skip st st' h = ground (arith, sent-skip_it env o st, append-nil st.tasks)
sent-perform env o delay_src st st' h = ground (arith, append-nil st.tasks)
sent-perform env o assertion st st' h = cc
sent-perform env o (send_marked mark) st st' h = ground arith
sent-perform env o (skip_recorded n) st st' h = ground (
  arith,
  sent-skip_it env o (record st { gate_records = st.gate_records ++ (record_skip o n ∷ []) }),
  append-nil st.tasks,
)

-- The three ways of `handleExtraObject`.
pub handle_extra_cases {ℓ} :
    (P : Bool × State → Type ℓ) (env : Env) (d : Object) (st : State)
    → P (false, st)
    → P (
      false,
      record (incr_total st) { extra = suc st.extra; extra_bytes = st.extra_bytes +ℤ size d },
    )
    → (only_counted env st d ≡ false
        → let st' = delete_extra env d (limit_decr (incr_total st)) in
          P (eqb_ℤ st'.limit (pos 0), st'))
    → P (handle_extra env d st)
unfolding handle_extra incr_total
handle_extra_cases P env d st own counted deleted = elim (Bool-cases (is_own_checkpoint st d)) [
  | inl e ↦ rw (handle_extra, e) own
  | inr e ↦ elim (Bool-cases (only_counted env (incr_total st) d)) [
    | inl c ↦ rw (handle_extra, e, c) counted
    | inr c ↦ rw (handle_extra, e, c) (deleted c)
  ]
]

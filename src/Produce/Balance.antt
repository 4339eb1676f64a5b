-- ===== src/Produce/Balance.antt =====
-- The books of `produce`: every object that it counts is sent, skipped, counted as extra or put off.
use my_sync.Common.{ℕ, suc, ◌+◌, ◌≡◌, some, List, [], ◌∷◌, ◌++◌, arith, length, length-append}
use my_sync.Common.Key.{Key}
use my_sync.Gate.{record_skip}
use my_sync.Object.{Object, key, with_size, mark_delete_dst}
use my_sync.Filter.{Stream}
use my_sync.Filter.Laws.{objects}
use my_sync.Produce.Compare.{
  Env, Verdict, send, skip, delay_src, assertion, send_marked, skip_recorded,
}
use my_sync.Produce.Effects.{
  State, perform, send_task, skip_it, delay_source, note_last_listed, untrack_scanned, incr_handled,
  record_skipped, track_scanned, incr_total, list_ended,
}
use my_sync.Produce.Extra.{handle_extra, delete_extra, limit_decr}
use my_sync.Produce.Frame.{handle_extra_cases}
use my_sync.Produce.Rule.{Keeps, EndsIn, any_met, any_source, produce-In}
use my_sync.Produce.{Gated, produce}

-- The objects counted by `incrTotal`, those that `incrHandled` has moved to the bar included.
abbrev pub counted : State → ℕ
counted st = st.total_handled + st.handled_total

-- The outcomes: tasks, delayed removals on either side, skipped objects and extra ones.
abbrev pub outcomes : State → ℕ
outcomes st =
    length st.tasks + length st.src_delay_del + length st.dst_delay_del + st.skipped + st.extra

abbrev pub Balanced : State → Type 0
Balanced st = outcomes st ≡ counted st

-- One object is claimed and has no outcome yet.
abbrev pub OneOpen : State → Type 0
OneOpen st = outcomes st + 1 ≡ counted st

-- The difference between the two sides, by any amount.
abbrev Off : ℕ → State → Type 0
Off n st = outcomes st + n ≡ counted st

handle_extra-Off :
    (n : ℕ) (env : Env) (d : Object) (st : State) → Off n st → Off n (handle_extra env d st).1
unfolding delete_extra limit_decr incr_total send_task
handle_extra-Off n env d st h =
    handle_extra_cases (λ r. Off n r.1) env d st h (omega arith)
      (λ _. ground (
        arith,
        length-append st.tasks (with_size d mark_delete_dst ∷ []),
        length-append st.dst_delay_del (key d ∷ []),
      ))

track_scanned-Off : (n : ℕ) (k : Key) (st : State) → Off n st → Off n (track_scanned k st)
unfolding track_scanned
track_scanned-Off n k st h = ground arith

skip_it-Off :
    (n : ℕ) (env : Env) (o : Object) (st : State) → Off (suc n) st → Off n (skip_it env o st)
unfolding skip_it note_last_listed untrack_scanned incr_handled record_skipped
skip_it-Off n env o st h = ground arith

performs-Balanced :
    (env : Env) (o : Object) (v : Verdict) (st st' : State)
    → perform env o v st ≡ some st'
    → OneOpen st
    → Balanced st'
unfolding perform send_task delay_source note_last_listed
performs-Balanced env o send st st' e h = ground (arith, length-append st.tasks (o ∷ []))
performs-Balanced env o (send_marked mark) st st' e h =
    ground (arith, length-append st.tasks (with_size o mark ∷ []))
performs-Balanced env o skip st st' e h = ground (arith, skip_it-Off 0 env o st)
performs-Balanced env o (skip_recorded n) st st' e h = ground (
  arith,
  skip_it-Off 0 env o (record st { gate_records = st.gate_records ++ (record_skip o n ∷ []) }),
)
performs-Balanced env o delay_src st st' e h =
    ground (arith, length-append st.src_delay_del (key o ∷ []))
performs-Balanced env o assertion st st' e h = cc

balance-Keeps : (env : Env) → Keeps env (λ (d : Object). Unit {0}) Balanced OneOpen
unfolding note_last_listed list_ended incr_total
balance-Keeps env = record {
  noted = λ o st h. h;
  claims = λ o left st e h.
      track_scanned-Off 1 (key o) (incr_total (record st { limit = left })) (omega arith);
  extra_claimed = λ d st _ h. handle_extra-Off 1 env d st h;
  extra_between = λ d st _ h. omega (arith, handle_extra-Off 0 env d st (omega arith));
  performs = λ o v st st' _. performs-Balanced env o v st st';
  ends = λ st h. h;
  ends_claimed = λ st h. h;
}

-- If the books are balanced before `produce`, then they are balanced where it ends with the
-- listings: every object that was counted has exactly one outcome. Where it stops early, at the
-- limit or by a failed listing, at most one counted object has none; after a panic exactly one.
pub produce-Balanced :
    (env : Env) (src : List Gated) (dst : Stream) (st : State)
    → Balanced st
    → EndsIn Balanced OneOpen (produce env src dst st)
produce-Balanced env src dst st h =
    produce-In env (λ (d : Object). Unit {0}) Balanced OneOpen (balance-Keeps env) src dst st
      (any_source src) (any_met (objects dst)) h

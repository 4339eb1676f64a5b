-- ===== src/Produce/Limit.antt =====
-- What `--limit` promises, and where it drops an object.
use my_sync.Common.{
  ℕ, zero, suc, ◌+◌, ◌≤◌, ◌≡◌, sym, subst, true, false, Option, none, some, List, [], ◌∷◌, ◌++◌,
  arith, length, length-append,
}
use my_sync.Common.Int.{ℤ, pos, ◌-ℤ◌}
use my_sync.Common.Key.{key_lt}
use my_sync.Object.{Object, key, with_size, is_dir, mark_delete_dst}
use my_sync.Gate.{SyncRecord}
use my_sync.Filter.{Stream}
use my_sync.Filter.Laws.{objects}
use my_sync.Produce.Compare.{Env, Verdict, send}
use my_sync.Produce.Effects.{
  State, perform, send_task, note_last_listed, track_scanned, incr_total, list_ended,
}
use my_sync.Produce.Extra.{handle_extra, delete_extra, limit_decr, only_counted, is_own_checkpoint}
use my_sync.Produce.Align.{align, advance, align_stopped}
use my_sync.Produce.Frame.{
  handle_extra_cases, sent_of, Sent, sent-perform, sent-track_scanned, sent_by,
}
use my_sync.Produce.Rule.{Keeps, EndsIn, any_met, any_source, produce-In}
use my_sync.Produce.{
  Gated, stopped, halt, decide, turn_claimed, claim_limit, claimed, ignored_dir, merge, turn,
  produce,
}

-- `l` units of the limit are left, and with the tasks and removals so far they make at most `n`,
-- `owed` units for claimed objects included.
abbrev pub Within : ℕ → ℕ → Sent → Type 0
Within n owed s =
    (l : ℕ) × (s.limit ≡ pos l) × (length s.tasks + length s.dst_delay_del + l + owed ≤ n)

abbrev pub WithinLimit : ℕ → State → Type 0
WithinLimit n st = Within n 0 (sent_of st)

abbrev pub OneClaimed : ℕ → State → Type 0
OneClaimed n st = Within n 1 (sent_of st)

deleted-Within :
    (n owed : ℕ) (env : Env) (d : Object) (st : State)
    → only_counted env st d ≡ false
    → (l : ℕ) → st.limit ≡ pos l
    → length st.tasks + length st.dst_delay_del + l + owed ≤ n
    → Within n owed (sent_of (delete_extra env d (limit_decr (incr_total st))))
unfolding delete_extra limit_decr incr_total send_task ◌-ℤ◌
deleted-Within n owed env d st c zero e h = absurd (ground (arith, c, e))
deleted-Within n owed env d st c (suc l) e h = (
  l,
  ground (arith, e),
  ground (
    arith,
    h,
    length-append st.tasks (with_size d mark_delete_dst ∷ []),
    length-append st.dst_delay_del (key d ∷ []),
  ),
)

handle_extra-Within :
    (n owed : ℕ) (env : Env) (d : Object) (st : State)
    → Within n owed (sent_of st)
    → Within n owed (sent_of (handle_extra env d st).1)
unfolding incr_total
handle_extra-Within n owed env d st (l, e, h) =
    handle_extra_cases (λ r. Within n owed (sent_of r.1)) env d st (l, e, h) (l, e, h)
      (λ some_left. deleted-Within n owed env d st some_left l e h)

claims-Within :
    (n : ℕ) (o : Object) (left : ℤ) (st : State)
    → claim_limit st.limit ≡ some left
    → WithinLimit n st
    → OneClaimed n (claimed o left st)
unfolding claim_limit incr_total
claims-Within n o left st e (zero, f, h) = absurd (ground (arith, e, f))
claims-Within n o left st e (suc l, f, h) =
    subst (Within n 1) (sym (sent-track_scanned (key o) (incr_total (record st { limit = left }))))
      (l, ground (arith, e, f), omega arith)

length-sent_by : (o : Object) (v : Verdict) → length (sent_by o v) ≤ 1
length-sent_by o send = omega arith
length-sent_by o _ = omega arith

performs-Within :
    (n : ℕ) (env : Env) (o : Object) (v : Verdict) (st st' : State)
    → perform env o v st ≡ some st'
    → OneClaimed n st
    → WithinLimit n st'
performs-Within n env o v st st' e (l, f, h) =
    subst (Within n 0) (sym (sent-perform env o v st st' e))
      (l, f, omega (arith, length-append st.tasks (sent_by o v), length-sent_by o v))

limit-Keeps :
    (n : ℕ) (env : Env) → Keeps env (λ (d : Object). Unit {0}) (WithinLimit n) (OneClaimed n)
unfolding note_last_listed list_ended
limit-Keeps n env = record {
  noted = λ o st h. h;
  claims = claims-Within n;
  extra_claimed = λ d st _ h. handle_extra-Within n 1 env d st h;
  extra_between = λ d st _ h. handle_extra-Within n 0 env d st h;
  performs = λ o v st st' _. performs-Within n env o v st st';
  ends = λ st h. h;
  ends_claimed = λ st h. h;
}

-- With `--limit n` the tasks that `produce` sends and the removals that it puts off at the
-- destination are at most `n`, together with what it leaves of the limit, which never falls below
-- zero. Where it ends early with an object claimed, they are fewer than `n`.
pub produce-WithinLimit :
    (n : ℕ) (env : Env) (src : List Gated) (dst : Stream) (st : State)
    → st.limit ≡ pos n
    → st.tasks ≡ []
    → st.dst_delay_del ≡ []
    → EndsIn (WithinLimit n) (OneClaimed n) (produce env src dst st)
produce-WithinLimit n env src dst st limited none_sent none_delayed =
    produce-In env (λ (d : Object). Unit {0}) (WithinLimit n) (OneClaimed n) (limit-Keeps n env) src
      dst st (any_source src) (any_met (objects dst))
      (n, limited, rw (none_sent, none_delayed) (omega arith))

last_deletion :
    (env : Env) (d : Object) (st : State)
    → env.config.delete_dst ≡ true
    → is_dir d ≡ false
    → is_own_checkpoint st d ≡ false
    → st.limit ≡ pos 1
    → handle_extra env d st ≡ (true, delete_extra env d (limit_decr (incr_total st)))
unfolding handle_extra delete_extra limit_decr incr_total send_task ◌-ℤ◌
last_deletion env d st deletes file foreign one = ground (arith, deletes, file, foreign, one)

last_deletion_aligns :
    (env : Env) (o d : Object) (dst : Stream) (st : State)
    → key_lt (key d) (key o) ≡ true
    → env.config.delete_dst ≡ true
    → is_dir d ≡ false
    → is_own_checkpoint st d ≡ false
    → st.limit ≡ pos 1
    → align env o none (some d ∷ dst) st
      ≡ align_stopped (delete_extra env d (limit_decr (incr_total st)))
unfolding align advance
last_deletion_aligns env o d dst st before deletes file foreign one =
    simp (before, last_deletion env d st deletes file foreign one)

foreign-claimed :
    (o d : Object) (left : ℤ) (st : State)
    → is_own_checkpoint st d ≡ false
    → is_own_checkpoint (claimed o left st) d ≡ false
unfolding is_own_checkpoint track_scanned incr_total
foreign-claimed o d left st h = ground (arith, h)

limit-claimed : (o : Object) (left : ℤ) (st : State) → (claimed o left st).limit ≡ left
unfolding track_scanned incr_total
limit-claimed o left st = ground arith

-- The state in which the last unit of the limit goes to a deletion while `o` is claimed.
abbrev dropping : Env → Object → Object → State → State
dropping env o d st = delete_extra env d (limit_decr (incr_total (claimed o (pos 1) st)))

turn_drops :
    (env : Env) (o d : Object) (rec : Option SyncRecord) (dst : Stream) (st : State)
    → env.config.delete_dst ≡ true
    → ignored_dir env o ≡ false
    → is_dir d ≡ false
    → key_lt (key d) (key o) ≡ true
    → st.limit ≡ pos 2
    → is_own_checkpoint st d ≡ false
    → turn env (some o) rec none (some d ∷ dst) st ≡ halt (stopped (dropping env o d st))
unfolding turn claim_limit turn_claimed decide
turn_drops env o d rec dst st deletes taken file before two foreign = simp (
  taken,
  two,
  last_deletion_aligns env o d dst (claimed o (pos 1) st) before deletes file
      (foreign-claimed o d (pos 1) st foreign) (limit-claimed o (pos 1) st),
)

merge_halts :
    (env : Env) (g : Gated) (src : List Gated) (dst : Stream) (st st' : State)
    → turn env g.obj g.rec none dst st ≡ halt (stopped st')
    → produce env (g ∷ src) dst st ≡ stopped (list_ended env st')
unfolding produce merge
merge_halts env g src dst st st' e = ground arith

-- A claimed object is dropped where the limit is used up by a deletion. With `--delete-dst` and two
-- units of the limit left, let the destination's first object, which is no directory and not the
-- checkpoint's, sort before the source's first object, which is no ignored directory. The source
-- object is claimed and counted, the destination object is deleted, and `produce` ends without an
-- error: the deletion is the only task, and the source object is neither sent nor skipped nor put
-- off, whatever follows.
pub produce_drops_claimed :
    (env : Env) (o d : Object) (rec : Option SyncRecord) (src : List Gated) (dst : Stream)
    (st : State)
    → env.config.delete_dst ≡ true
    → ignored_dir env o ≡ false
    → is_dir d ≡ false
    → key_lt (key d) (key o) ≡ true
    → st.limit ≡ pos 2
    → is_own_checkpoint st d ≡ false
    → (st' : State) × (produce env (record { obj = some o; rec = rec } ∷ src) (some d ∷ dst) st
        ≡ stopped st')
      × (st'.tasks ≡ st.tasks ++ (with_size d mark_delete_dst ∷ []))
      × (st'.skipped ≡ st.skipped)
      × (st'.src_delay_del ≡ st.src_delay_del)
      × (st'.total_handled ≡ st.total_handled + 2)
unfolding list_ended delete_extra limit_decr incr_total send_task track_scanned
produce_drops_claimed env o d rec src dst st deletes taken file before two foreign = (
  list_ended env (dropping env o d st),
  merge_halts env (record { obj = some o; rec = rec }) src (some d ∷ dst) st (dropping env o d st)
      (turn_drops env o d rec dst st deletes taken file before two foreign),
  ground (arith, file),
  ground (arith, file),
  ground (arith, file),
  ground (arith, file),
)

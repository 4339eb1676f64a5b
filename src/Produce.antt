-- ===== src/Produce.antt =====
-- `produce`, `handleExtraObject` and the counters they keep (pkg/sync/sync.go): the merge of the
-- source and destination listings into tasks. One producer runs here, so the limit and the
-- counters change by its steps alone. A channel is the list of what it delivers, and the gate
-- records come with the source objects, as `prefetchGateRecords` pairs them.
pub mod Compare
pub mod Effects
pub mod Extra
pub mod Align
pub mod Foreign
pub mod Frame
pub mod Rule
pub mod Balance
pub mod Harmless
pub mod Alignment
pub mod Safety
pub mod Limit
pub mod Pending
pub mod Managed
pub mod Protection
use my_sync.Common.{
  ℕ, zero, suc, Bool, true, false, not, ◌&&◌, ◌||◌, Option, none, some, List, [], ◌∷◌,
  if◌then◌else◌,
}
use my_sync.Common.Int.{ℤ, pos, negsuc, ◌-ℤ◌}
use my_sync.Common.Key.{Key, key_eq, key_lt}
use my_sync.Object.{Object, key, size, is_dir, is_symlink}
use my_sync.Gate.{SyncRecord, GateResult, gate_skip, first_gate}
use my_sync.Filter.{Stream}
use Compare.{Env, Verdict, send, skip, use_first_gate, missing_verdict, common_verdict}
use Effects.{State, perform, note_last_listed, incr_total, track_scanned, list_ended}
use Extra.{handle_extra}
use Align.{
  Aligned, aligned, align_stopped, align_failed, align, Drained, drained, drain_stopped,
  drain_failed, drain,
}

-- `gatedObject`; no object stands for a failed listing.
pub record Gated : Type 0 where
  pub obj : Option Object
  pub rec : Option SyncRecord

-- How the merge ends: at the end of the listings, early at the limit, by a failed listing, or by a
-- panic of a type assertion. The first two return no error.
pub data Ended : Type 0 where
  finished stopped failed panicked : State → Ended

abbrev pub ignored_dir : Env → Object → Bool
ignored_dir env o = not env.config.dirs && is_dir o && (not env.config.links || not (is_symlink o))

-- The claim of one unit of the limit, of which none is left at 0. A negative limit is no limit.
unfoldable pub claim_limit : ℤ → Option ℤ
claim_limit (negsuc n) = some (negsuc n)
claim_limit (pos zero) = none
claim_limit (pos (suc n)) = some (pos n)

-- The destination object after the source object `o`: one with the same key is used up.
abbrev pub after_same : Object → Option Object → Option Object
after_same o none = none
after_same o (some d) = if key_eq (key o) (key d) then none else some d

abbrev is_gate_skip : GateResult → Bool
is_gate_skip gate_skip = true
is_gate_skip _ = false

-- What is done with a source object that is aligned: the first gate, then the comparison.
unfoldable pub verdict_of : Env → Object → Option SyncRecord → Option Object → Verdict
verdict_of env o rec d =
    if use_first_gate env && is_gate_skip (first_gate o rec env.config.force_update)
    then skip
    else elim d [
      | none ↦ missing_verdict env
      | some d ↦ if key_lt (key o) (key d) then missing_verdict env else common_verdict env o d
    ]

-- The state in which a claimed object is aligned.
abbrev claimed : Object → ℤ → State → State
claimed o left st = track_scanned (key o) (incr_total (record st { limit = left }))

abbrev ended_by : Drained → Ended
ended_by (drained st) = finished st
ended_by (drain_stopped st) = stopped st
ended_by (drain_failed st) = failed st

-- What is left of the destination when the source has ended.
unfoldable pub finish_dst : Env → Option Object → Stream → State → Ended
finish_dst env d dst st = if not env.config.delete_dst then finished st else elim d [
  | none ↦ ended_by (drain env dst st)
  | some d ↦ ended_by (drain env (some d ∷ dst) st)
]

-- One turn of the loop over the source: on with the destination object at hand and its listing,
-- or the end.
pub data Turn : Type 0 where
  go : Option Object → Stream → State → Turn
  halt : Ended → Turn

carried : Object → Option Object → Stream → State → Option State → Turn
carried o d dst st none = halt (panicked st)
carried o d dst st (some st') = go (after_same o d) dst st'

decide : Env → Object → Option SyncRecord → Aligned → Turn
decide env o rec (aligned d dst st) = carried o d dst st (perform env o (verdict_of env o rec d) st)
decide env o rec (align_stopped st) = halt (stopped st)
decide env o rec (align_failed st) = halt (failed st)

turn_claimed : Env → Object → Option SyncRecord → Option Object → Stream → State → Option ℤ → Turn
turn_claimed env o rec d dst st none = halt (stopped st)
turn_claimed env o rec d dst st (some left) =
    decide env o rec (align env o d dst (claimed o left st))

-- The body of the loop over the source.
unfoldable pub turn :
    Env → Option Object → Option SyncRecord → Option Object → Stream → State → Turn
unfolding turn_claimed decide carried
turn env none rec d dst st = halt (failed st)
turn env (some o) rec d dst st =
    if ignored_dir env o
    then go d dst (note_last_listed env o st)
    else turn_claimed env o rec d dst st (claim_limit st.limit)

-- The loop over the source.
unfoldable pub merge : Env → List Gated → Option Object → Stream → State → Ended
merge env [] d dst st = finish_dst env d dst st
merge env (g ∷ src) d dst st = elim (turn env g.obj g.rec d dst st) [
  | halt ended ↦ ended
  | go d' dst' st' ↦ merge env src d' dst' st'
]

-- `produce`: without an error the prefix is listed to its end.
unfoldable pub produce : Env → List Gated → Stream → State → Ended
unfolding merge
produce env src dst st = elim (merge env src none dst st) [
  | finished st' ↦ finished (list_ended env st')
  | stopped st' ↦ stopped (list_ended env st')
  | failed st' ↦ failed st'
  | panicked st' ↦ panicked st'
]

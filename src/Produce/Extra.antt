-- ===== src/Produce/Extra.antt =====
-- `handleExtraObject`: an object that only the destination has.
use my_sync.Common.{Bool, false, not, ◌&&◌, ◌||◌, none, some, [], ◌∷◌, ◌++◌, suc, if◌then◌else◌}
use my_sync.Common.Int.{pos, ◌+ℤ◌, ◌-ℤ◌, eqb_ℤ}
use my_sync.Object.{Object, key, size, is_dir, with_size, mark_delete_dst}
use my_sync.Checkpoint.{is_checkpoint_key}
use my_sync.Produce.Compare.{Env}
use my_sync.Produce.Effects.{State, incr_total, send_task}

-- The checkpoint's own object at the destination.
unfoldable pub is_own_checkpoint : State → Object → Bool
is_own_checkpoint st d = elim st.manager [ none ↦ false | some m ↦ is_checkpoint_key m (key d) ]

-- Extra objects are only counted: without `--delete-dst`, for a directory without `--dirs`, and
-- when nothing of the limit is left.
abbrev pub only_counted : Env → State → Object → Bool
only_counted env st d =
    not env.config.delete_dst || (not env.config.dirs && is_dir d || eqb_ℤ st.limit (pos 0))

-- `LimitDecr`
unfoldable pub limit_decr : State → State
limit_decr st = record st { limit = st.limit -ℤ pos 1 }

-- The extra object is deleted, a directory at the end of the run.
unfoldable pub delete_extra : Env → Object → State → State
delete_extra env d st =
    if is_dir d
    then record st { dst_delay_del = st.dst_delay_del ++ (key d ∷ []) }
    else send_task env (with_size d mark_delete_dst) st

-- The result says whether the limit is used up, which stops the producer.
unfoldable pub handle_extra : Env → Object → State → Bool × State
handle_extra env d st =
    if is_own_checkpoint st d
    then (false, st)
    else (let st₁ = incr_total st in
        if only_counted env st₁ d
        then (false, record st₁ { extra = suc st₁.extra; extra_bytes = st₁.extra_bytes +ℤ size d })
        else (let st₂ = delete_extra env d (limit_decr st₁) in (eqb_ℤ st₂.limit (pos 0), st₂)))

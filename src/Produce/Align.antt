-- ===== src/Produce/Align.antt =====
-- The alignment of the destination with a source object: what sorts before the object is extra.
use my_sync.Common.{Option, none, some, [], ◌∷◌, if◌then◌else◌}
use my_sync.Common.Key.{key_lt}
use my_sync.Object.{Object, key}
use my_sync.Filter.{Stream}
use my_sync.Produce.Compare.{Env}
use my_sync.Produce.Effects.{State}
use my_sync.Produce.Extra.{handle_extra}

-- The destination object at hand and the rest of the listing, or an early end.
pub data Aligned : Type 0 where
  aligned : Option Object → Stream → State → Aligned
  align_stopped align_failed : State → Aligned

-- `for dstobj = range dstkeys`, up to the first object that does not sort before `o`.
unfoldable pub advance : Env → Object → Stream → State → Aligned
advance env o [] st = aligned none [] st
advance env o (none ∷ dst) st = align_failed st
advance env o (some d ∷ dst) st =
    let (stop, st') = handle_extra env d st in
    let rest = advance env o dst st' in
    if key_lt (key d) (key o)
    then (if stop then align_stopped st' else rest)
    else aligned (some d) dst st

-- The destination object left from before goes first.
unfoldable pub align : Env → Object → Option Object → Stream → State → Aligned
align env o none dst st = advance env o dst st
align env o (some d) dst st =
    if key_lt (key d) (key o)
    then (let (stop, st') = handle_extra env d st in
        if stop then align_stopped st' else advance env o dst st')
    else aligned (some d) dst st

-- The end of the destination listing, under `--delete-dst`: all that is left is extra.
pub data Drained : Type 0 where
  drained drain_stopped drain_failed : State → Drained

unfoldable pub drain : Env → Stream → State → Drained
drain env [] st = drained st
drain env (none ∷ dst) st = drain_failed st
drain env (some d ∷ dst) st =
    let (stop, st') = handle_extra env d st in
    let rest = drain env dst st' in if stop then drain_stopped st' else rest

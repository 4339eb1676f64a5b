-- ===== src/Start.antt =====
-- What lists a prefix for the producer (pkg/sync/sync.go): `startSingleProducer` and `produce` with
-- its filters and the prefetch of the gate.
pub mod Gating
pub mod Excluded
pub mod Safety
pub mod OutOfBounds
pub mod Tree
use my_sync.Common.{
  ℕ, Bool, true, false, Option, none, some, List, [], ◌∷◌, map, is_empty, if◌then◌else◌,
}
use my_sync.Common.Key.{Key}
use my_sync.Common.Map.{Map}
use my_sync.Gate.{SyncRecord}
use my_sync.Checkpoint.{Manager, get_last_listed_key}
use my_sync.Filter.{Stream, filter}
use my_sync.Prefetch.{Event, comes, expires, prefetch, pass_through}
use my_sync.Listing.{ListAnswers, list_all}
use my_sync.Produce.Compare.{Env, use_first_gate}
use my_sync.Produce.Effects.{State}
use my_sync.Produce.{Gated, Ended, failed, produce}

-- What the storages, the gate database and the clock answer while a prefix is listed: `source` and
-- `target` to the listing from a start key, and `fires` is whether the timer of the prefetch fires
-- before the next object.
pub record Surroundings : Type 0 where
  pub path_match : Key → Key → Bool
  pub now : ℕ
  pub source : Key → ListAnswers
  pub target : Key → ListAnswers
  pub get_records : ℕ → List Key → Option (Map Key SyncRecord)
  pub fires : List Bool

-- The objects of a stream, and the timer between them.
unfoldable pub timed : List Bool → Stream → List Event
timed [] s = map comes s
timed (true ∷ bs) s = expires ∷ timed bs s
timed (false ∷ bs) [] = timed bs []
timed (false ∷ bs) (o ∷ s) = comes o ∷ timed bs s

-- `filter` of `produce`.
abbrev pub filtered : Surroundings → Env → Stream → Stream
filtered w env s = filter w.path_match env.config w.now env.config.rules s

-- The source objects with their gate records.
unfoldable pub gated : Surroundings → Env → Stream → List Gated
unfolding timed
gated w env s =
    if use_first_gate env then prefetch w.get_records (timed w.fires s) else pass_through s

-- `produce` of two listings.
unfoldable pub produce_listed : Surroundings → Env → Stream → Stream → State → Ended
unfolding gated
produce_listed w env src dst st =
    produce env (gated w env (filtered w env src)) (filtered w env dst) st

-- `checkpointMgr.GetLastListedKey`, of no manager too.
abbrev pub last_listed : Option Manager → Key → Key
last_listed none prefix = []
last_listed (some m) prefix = get_last_listed_key m prefix

-- The key to list from, and whether this key itself is asked for.
abbrev pub start_after : Env → State → Key
start_after env st =
    let last = last_listed st.manager env.prefix in if is_empty last then env.config.start else last

abbrev pub include_start : Env → State → Bool
include_start env st = is_empty (last_listed st.manager env.prefix)

abbrev pub listing : Env → State → (Key → ListAnswers) → Option Stream
listing env st answers =
    list_all env.prefix (start_after env st) env.config.end (include_start env st)
      (answers (start_after env st))

-- The destination listing; `--force-update` takes none.
abbrev pub target_listing : Surroundings → Env → State → Option Stream
target_listing w env st = if env.config.force_update then some [] else listing env st w.target

produce_found : Surroundings → Env → State → Option Stream → Option Stream → Ended
produce_found w env st none dst = failed st
produce_found w env st (some src) none = failed st
produce_found w env st (some src) (some dst) = produce_listed w env src dst st

-- `startSingleProducer`
unfoldable pub start_single : Surroundings → Env → State → Ended
unfolding produce_found
start_single w env st = produce_found w env st (listing env st w.source) (target_listing w env st)

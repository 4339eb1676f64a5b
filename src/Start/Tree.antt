-- ===== src/Start/Tree.antt =====
-- `startProducer`, `restorePrefixFromCheckpoint`, `produceSingleObject`, `produceFromList` and
-- `restoreFromCheckpoint` (pkg/sync/sync.go). The goroutines of a directory run one after another
-- here: first `produce` of its own keys, then the registration of its children, which concerns other
-- prefixes than that of `produce`, then the children in the order in which they are found. The
-- counters of failed listings, listed prefixes and ignored files are not kept.
pub mod Ends
pub mod Skipped
use my_sync.Common.{
  ℕ, zero, suc, ◌+◌, ◌-◌, Bool, true, false, not, ◌&&◌, ◌||◌, Option, none, some, List, [], ◌∷◌,
  ◌++◌, length, take, leb, ltb, is_empty, if◌then◌else◌,
}
use mathlib.Core.Option
use my_sync.Common.Int.{pos, eqb_ℤ}
use my_sync.Common.Key.{Key, key_lt, key_eq}
use my_sync.Object.{Object, key, is_dir}
use my_sync.Checkpoint.{Manager, Restored, restore_prefix, register_child_prefix, list_prefixes}
use my_sync.Rules.{match_leveled_path}
use my_sync.Filter.{Stream}
use my_sync.Listing.{Page, list_common_prefix}
use my_sync.Produce.Compare.{Env}
use my_sync.Produce.Effects.{State}
use my_sync.Produce.{Ended, finished, stopped, failed, panicked}
use my_sync.Start.{Surroundings, last_listed, produce_listed, start_single}

-- What `Head` answers.
pub data Head : Type 0 where
  found : Object → Head
  missing refused : Head

-- `near` is what surrounds the single listing of a prefix; the pages are those of the listings with a
-- delimiter, from a key on. Where `produce` ends before the listings of a prefix, `source_reached` and
-- `target_reached` are how many directories they have sent until then, and `goes_on` is whether the
-- source listing continues, instead of being stuck at a full channel of keys.
pub record World : Type 0 where
  pub near : Key → Surroundings
  pub source_pages : Key → Key → List (Option Page)
  pub target_pages : Key → Key → List (Option Page)
  pub source_head : Key → Head
  pub target_head : Key → Head
  pub source_reached : Key → ℕ
  pub target_reached : Key → ℕ
  pub goes_on : Key → Bool
  pub list_threads : ℕ

abbrev pub at_prefix : Env → Key → Env
at_prefix env prefix = record env { prefix = prefix }

-- How a call ends: it returns, with an error or without, or the process crashes. `exhausted` is the
-- end of the fuel.
pub data Outcome : Type 0 where
  returned : Bool → State → Outcome
  crashed : State → Outcome
  exhausted : Outcome

abbrev pub of_ended : Ended → Outcome
of_ended (finished st) = returned false st
of_ended (stopped st) = returned false st
of_ended (failed st) = returned true st
of_ended (panicked st) = crashed st

-- `_ = produce(...)`
abbrev pub without_error : Outcome → Outcome
without_error (returned err st) = returned false st
without_error (crashed st) = crashed st
without_error exhausted = exhausted

produce_one : World → Env → Key → Object → Head → State → Outcome
produce_one w env k o (found d) st =
    without_error
      (of_ended (produce_listed (w.near k) (at_prefix env k) (some o ∷ []) (some d ∷ []) st))
produce_one w env k o missing st =
    without_error (of_ended (produce_listed (w.near k) (at_prefix env k) (some o ∷ []) [] st))
produce_one w env k o refused st = returned true st

-- `produceSingleObject`
unfoldable pub produce_single : World → Env → Key → State → Outcome
unfolding produce_one
produce_single w env k st = elim (w.source_head k) [
  | found o ↦ if is_dir o then returned true st else produce_one w env k o (w.target_head k) st
  | missing ↦ returned true st
  | refused ↦ returned true st
]

-- The tests that a child prefix has to pass. An empty end key is none.
unfoldable pub is_eligible : World → Env → Key → Bool
is_eligible w env k =
    (is_empty env.config.rules
      || match_leveled_path (w.near env.prefix).path_match env.config.rules k)
    && (not (key_lt k env.config.start)
        && (is_empty env.config.end || not (key_lt env.config.end k)))

-- `onChildPrefix` for each directory that the source listing finds.
unfoldable pub register_children : World → Env → ℕ → List Object → Option Manager → Option Manager
register_children w env depth [] m = m
register_children w env depth (d ∷ dirs) m = register_children w env depth dirs (
    if is_eligible w env (key d)
    then Option.map (λ m. register_child_prefix m (key d) depth) m
    else m)

unfoldable pub listed_in : Key → List Key → Bool
listed_in k [] = false
listed_in k (j ∷ ks) = key_eq j k || listed_in k ks

-- The children that get a goroutine: each once, if it passes.
unfoldable pub child_prefixes : World → Env → List Key → List Object → List Key
unfolding listed_in
child_prefixes w env seen [] = []
child_prefixes w env seen (d ∷ dirs) =
    let rest = child_prefixes w env (key d ∷ seen) dirs in
    if listed_in (key d) seen
    then rest
    else if is_eligible w env (key d)
    then key d ∷ rest
    else rest

-- The restored objects are tasks again.
abbrev pub resend : List Object → State → State
resend objs st = record st {
  total_handled = st.total_handled + length objs;
  tasks = st.tasks ++ objs;
}

-- `restorePrefixFromCheckpoint`: whether the prefix is restored, and how. `start` is the call of
-- `startProducer`, whose error is counted only.
unfoldable pub restored_as : (Key → ℕ → State → Outcome) → Key → Restored → State → Option Outcome
restored_as start prefix r st = if not r.found then none else elim r.objs [
  | none ↦ some (returned false st)
  | some objs ↦
      if r.list_done
      then some (returned false (resend objs st))
      else some (without_error (start prefix r.list_depth (resend objs st)))
]

unfoldable pub restore_from : (Key → ℕ → State → Outcome) → Key → State → Option Outcome
unfolding restored_as
restore_from start prefix st = elim st.manager [
  | none ↦ none
  | some m ↦
      restored_as start prefix (restore_prefix m prefix).0
        (record st { manager = some (restore_prefix m prefix).1 })
]

-- A child is restored, or listed.
abbrev pub start_child : (Key → ℕ → State → Outcome) → ℕ → Key → State → Outcome
start_child start depth k st = elim (restore_from start k st) [
  | some outcome ↦ outcome
  | none ↦ without_error (start k depth st)
]

-- One call after another, up to a crash.
unfoldable pub each_key : (Key → State → Outcome) → List Key → State → Outcome
each_key call [] st = returned false st
each_key call (k ∷ ks) st = elim (call k st) [
  | returned err st' ↦ each_key call ks st'
  | crashed st' ↦ crashed st'
  | exhausted ↦ exhausted
]

abbrev pub source_found : World → Env → State → Stream × List Object
source_found w env st =
    list_common_prefix env.prefix (w.source_pages env.prefix (last_listed st.manager env.prefix))

abbrev pub target_found : World → Env → State → Stream × List Object
target_found w env st =
    if env.config.force_update
    then ([], [])
    else list_common_prefix env.prefix
        (w.target_pages env.prefix (last_listed st.manager env.prefix))

-- The directories of the two listings that go into the channel of prefixes; those of the
-- destination under `--delete-dst`.
abbrev pub found_dirs : Env → List Object → List Object → List Object
found_dirs env src dst = if env.config.delete_dst then src ++ dst else src

abbrev pub with_children : World → Env → ℕ → List Object → State → State
with_children w env depth dirs st = record st {
  manager = register_children w env depth dirs st.manager;
}

-- The source directories that are sent before `produce` ends early.
abbrev pub reached : World → Env → List Object → List Object
reached w env src = take (w.source_reached env.prefix) src

-- The source listing sends a directory to the channel that is closed behind `produce`, and the process
-- crashes.
abbrev pub sends_to_closed : World → Env → List Object → Bool
sends_to_closed w env src = w.goes_on env.prefix && ltb (w.source_reached env.prefix) (length src)

abbrev pub with_error : Outcome → Outcome
with_error (returned err st) = returned true st
with_error (crashed st) = crashed st
with_error exhausted = exhausted

abbrev pub list_children :
    (Key → ℕ → State → Outcome) → World → Env → ℕ → List Object → State → Outcome
list_children start w env depth dirs st =
    each_key (start_child start depth) (child_prefixes w env [] dirs) st

-- The children of a directory whose own `produce` has ended. At the end of the listings all of the
-- directories are in the channel. At the limit the listing of the destination is drained, that of the
-- source is not. After an error the channel stays open, and the children of what is in it go on.
unfoldable pub level_after :
    (Key → ℕ → State → Outcome) → World → Env → ℕ → List Object → List Object → Ended → Outcome
unfolding register_children each_key child_prefixes
level_after start w env depth src dst (finished st) =
    list_children start w env depth (found_dirs env src dst) (with_children w env depth src st)
level_after start w env depth src dst (stopped st) =
    let st' = with_children w env depth (reached w env src) st in
    let listed = list_children start w env depth (found_dirs env (reached w env src) dst) st' in
    if sends_to_closed w env src then crashed st' else listed
level_after start w env depth src dst (failed st) = with_error (
    list_children start w env depth
      (found_dirs env (reached w env src) (take (w.target_reached env.prefix) dst))
      (with_children w env depth (reached w env src) st))
level_after start w env depth src dst (panicked st) =
    crashed (with_children w env depth (reached w env src) st)

-- The keys of the directory itself.
unfoldable pub produce_level : World → Env → State → Ended
produce_level w env st =
    produce_listed (w.near env.prefix) env (source_found w env st).0 (target_found w env st).0 st

-- The key that is asked for alone: `--limit 1` and `--start` without rules.
abbrev pub one_key : Env → State → Bool
one_key env st =
    eqb_ℤ st.limit (pos 1) && (is_empty env.config.rules && not (is_empty env.config.start))

list_level : (Key → ℕ → State → Outcome) → World → Env → ℕ → State → Outcome
unfolding produce_level level_after
list_level start w env zero st = of_ended (start_single (w.near env.prefix) env st)
list_level start w env (suc depth) st =
    if leb w.list_threads 1
    then of_ended (start_single (w.near env.prefix) env st)
    else level_after start w env depth (source_found w env st).1 (target_found w env st).1
        (produce_level w env st)

after_one : Outcome → Outcome → Outcome
after_one (returned true st) otherwise = otherwise
after_one (returned false st) otherwise = returned false st
after_one (crashed st) otherwise = crashed st
after_one exhausted otherwise = exhausted

-- `startProducer`
unfoldable pub start_producer : ℕ → World → Env → ℕ → State → Outcome
unfolding list_level after_one produce_single
start_producer zero w env depth st = exhausted
start_producer (suc fuel) w env depth st =
    let all = list_level (λ k d s. start_producer fuel w (at_prefix env k) d s) w env depth st in
    if one_key env st then after_one (produce_single w env env.config.start st) all else all

-- `produceFromList`, of the lines that are not empty, without the spaces at their ends.
abbrev pub restore_or_single : ℕ → World → Env → Key → State → Outcome
restore_or_single fuel w env k st =
    elim (restore_from (λ k d s. start_producer fuel w (at_prefix env k) d s) k st) [
      | some outcome ↦ outcome
      | none ↦ produce_single w env k st
    ]

unfoldable pub produce_from_list : ℕ → World → Env → List Key → State → Outcome
unfolding each_key
produce_from_list fuel w env lines st = each_key (restore_or_single fuel w env) lines st

abbrev pub restore_call : ℕ → World → Env → Key → State → Outcome
restore_call fuel w env k st =
    elim (restore_from (λ k d s. start_producer fuel w (at_prefix env k) d s) k st) [
      | some outcome ↦ outcome
      | none ↦ returned false st
    ]

-- `restoreFromCheckpoint`
unfoldable pub restore_all : ℕ → World → Env → Manager → State → Outcome
unfolding each_key
restore_all fuel w env m st = each_key (restore_call fuel w env) (list_prefixes m) st

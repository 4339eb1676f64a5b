-- ===== src/Wire/Saved.antt =====
-- A run that goes on from a saved checkpoint: `Load` (pkg/sync/checkpoint.go) and the restore of a
-- prefix after it.
use my_sync.Common.{◌≡◌, ◌∙◌, refl, true, false, some, [], ◌∷◌, arith, All}
use my_sync.Common.Key.{Key}
use my_sync.Common.Map
use my_sync.Common.Map.{Map, key_keys}
use my_sync.Object.{Object, base}
use my_sync.Uploads.{Store}
use my_sync.Checkpoint.{
  PrefixState, Manager, prefix_state, restored_before, restore_prefix, objects,
}
use my_sync.Checkpoint.Outstanding.{holds, is_outstanding}
use my_sync.Checkpoint.History.{restore_prefix-Restores}
use my_sync.Wire.{Formats, reload, reload_prefix}
use my_sync.Wire.RoundTrip.{TextTravels, Travels, decoded}

-- The saved prefixes, read back.
unfoldable pub reload_prefixes : Formats → Map Key PrefixState → Map Key PrefixState
reload_prefixes fmt [] = []
reload_prefixes fmt ((p, s) ∷ rest) =
    (fmt.json_text p, reload_prefix fmt s) ∷ reload_prefixes fmt rest

-- `Load` by the manager of a new run, of what `Save` wrote of the old one. What comes back of the
-- multipart uploads is an argument.
unfoldable pub load : Formats → Manager → Store → Manager → Manager
unfolding reload_prefixes
load fmt saved uploads fresh = record fresh {
  prefixes = reload_prefixes fmt saved.prefixes;
  uploads = uploads;
  files_from = fmt.json_text saved.files_from;
}

-- What is saved of an object travels, its key in the map too.
abbrev pub EntryTravels : Formats → Key × Object → Type 0
EntryTravels fmt kv = TextTravels fmt kv.0 × Travels fmt (base kv.1)

abbrev pub PrefixTravels : Formats → Key × PrefixState → Type 0
PrefixTravels fmt ps = TextTravels fmt ps.0

abbrev pub StateTravels : Formats → PrefixState → Type 0
StateTravels fmt s = All (EntryTravels fmt) s.pending × All (EntryTravels fmt) s.failed

contains-reload :
    (fmt : Formats) (m : Map Key Object) (k : Key)
    → All (EntryTravels fmt) m
    → Map.contains (reload fmt m) k ≡ Map.contains m k
unfolding reload Map.get
contains-reload fmt [] k h = refl
contains-reload fmt ((j, o) ∷ m) k h =
    ground (arith, decoded fmt o h.0.1, h.0.0, contains-reload fmt m k h.1)

holds-reload_prefix :
    (fmt : Formats) (s : PrefixState) (k : Key)
    → StateTravels fmt s
    → holds (reload_prefix fmt s) k ≡ holds s k
unfolding reload_prefix holds
holds-reload_prefix fmt s k h =
    ground (arith, contains-reload fmt s.pending k h.0, contains-reload fmt s.failed k h.1)

get-reload_prefixes :
    (fmt : Formats) (ps : Map Key PrefixState) (p : Key) (s : PrefixState)
    → All (PrefixTravels fmt) ps
    → Map.get ps p ≡ some s
    → Map.get (reload_prefixes fmt ps) p ≡ some (reload_prefix fmt s)
unfolding reload_prefixes Map.get
get-reload_prefixes fmt [] p s h e = cc
get-reload_prefixes fmt ((q, t) ∷ ps) p s h e =
    ground (arith, h.0, e, get-reload_prefixes fmt ps p s h.1)

-- A prefix of the saved run, in the manager of the new one.
module _ (fmt : Formats) (saved fresh : Manager) (uploads : Store) (p : Key) (s : PrefixState)
    (found : Map.get saved.prefixes p ≡ some s) (prefixes : All (PrefixTravels fmt) saved.prefixes)
    (stored : StateTravels fmt s) where
  loaded : Map.get (load fmt saved uploads fresh).prefixes p ≡ some (reload_prefix fmt s)
  unfolding load
  loaded = get-reload_prefixes fmt saved.prefixes p s prefixes found

  is_outstanding-load :
      (k : Key) → is_outstanding (load fmt saved uploads fresh) p k ≡ is_outstanding saved p k
  unfolding is_outstanding prefix_state
  is_outstanding-load k = ground (arith, loaded, found, holds-reload_prefix fmt s k stored)

-- What a run that goes on from a saved checkpoint does with a prefix of the run before, if all that is
-- saved of its objects, and the prefixes, travel through JSON: when the prefix is restored after
-- `Load`, its pending keys are the keys that were outstanding when the checkpoint was saved, failed
-- ones included, and no other; their objects are handed out, each is tracked to the prefix, so that a
-- worker can complete it, and a second restore hands out nothing.
pub restore_prefix-load :
    (fmt : Formats) (saved fresh : Manager) (uploads : Store) (p : Key) (s : PrefixState)
    → Map.get saved.prefixes p ≡ some s
    → All (PrefixTravels fmt) saved.prefixes
    → StateTravels fmt s
    → Map.contains fresh.restored p ≡ false
    → let r = restore_prefix (load fmt saved uploads fresh) p in
      (r.0.objs ≡ some (objects (prefix_state r.1 p).pending))
      × ((k : Key) → Map.contains (prefix_state r.1 p).pending k ≡ is_outstanding saved p k)
      × ((k : Key) → is_outstanding saved p k ≡ true → Map.get r.1.key_prefix k ≡ some p)
      × (restore_prefix r.1 p ≡ (restored_before, r.1))
unfolding load reload_prefix
restore_prefix-load fmt saved fresh uploads p s found prefixes stored first =
    let (handed, pending, tracked, once) =
      restore_prefix-Restores (load fmt saved uploads fresh) p (reload_prefix fmt s)
        (loaded fmt saved fresh uploads p s found prefixes stored) refl first in
    let same : (k : Key)
        → is_outstanding (load fmt saved uploads fresh) p k ≡ is_outstanding saved p k =
      is_outstanding-load fmt saved fresh uploads p s found prefixes stored in
    (handed, (λ k. pending k ∙ same k), (λ k h. tracked k (same k ∙ h)), once)

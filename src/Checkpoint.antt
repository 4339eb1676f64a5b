-- ===== src/Checkpoint.antt =====
-- `CheckpointManager` of pkg/sync/checkpoint.go: the state of each prefix, and where each key
-- stands. The locks make each operation one step.
pub mod Outstanding
pub mod History
use my_sync.Common.{
  ℕ, Bool, true, false, ◌&&◌, Option, none, some, List, [], ◌∷◌, if◌then◌else◌, is_empty, map,
}
use my_sync.Common.Key.{Key, key_eq}
use my_sync.Common.Map
use my_sync.Common.Map.{Map, key_keys, ◌=?◌}
use my_sync.Object.{Object, key}
use my_sync.Uploads.{Store, finish, new_store}

-- `PrefixState`
pub record PrefixState : Type 0 where
  pub list_done : Bool
  pub last_listed_key : Key
  pub list_depth : ℕ
  pub pending : Map Key Object
  pub failed : Map Key Object
  pub is_new : Bool

-- `CheckpointManager` with the `Checkpoint` that it holds. `files_from` is the `FilesFrom` of the
-- checkpoint's config; no config reads like an empty one.
pub record Manager : Type 0 where
  pub prefixes : Map Key PrefixState
  pub uploads : Store
  pub files_from : Key
  pub checkpoint_key : Key
  pub key_prefix : Map Key Key
  pub restored : Map Key (Unit {0})

-- `isCheckpointKey`
unfoldable pub is_checkpoint_key : Manager → Key → Bool
is_checkpoint_key m k = key_eq k m.checkpoint_key

abbrev pub new_prefix : PrefixState
new_prefix = record {
  list_done = false;
  last_listed_key = [];
  list_depth = 0;
  pending = [];
  failed = [];
  is_new = true;
}

abbrev or_new : Option PrefixState → PrefixState
or_new none = new_prefix
or_new (some s) = s

-- `GetOrCreatePrefixState`: the state, which is in the map afterwards.
unfoldable pub prefix_state : Manager → Key → PrefixState
prefix_state m prefix = or_new (Map.get m.prefixes prefix)

unfoldable pub get_or_create : Manager → Key → PrefixState × Manager
unfolding prefix_state
get_or_create m prefix =
    let s = prefix_state m prefix in (s, record m { prefixes = Map.put m.prefixes prefix s })

-- Nothing of the prefix is left to do. The prefixes of a list of files stay.
unfoldable pub prefix_done : Manager → PrefixState → Bool
prefix_done m s = s.list_done && is_empty s.pending && is_empty s.failed && is_empty m.files_from

-- `updatePrefixState`: a prefix with nothing left is dropped.
unfoldable pub update_prefix : Manager → Key → (PrefixState → PrefixState) → Manager
unfolding get_or_create
update_prefix m prefix f =
    let (old, m') = get_or_create m prefix in
    let s = f old in
    let prefixes = Map.put m'.prefixes prefix s in
    if prefix_done m' s
    then record m' { prefixes = Map.delete prefixes prefix }
    else record m' { prefixes = prefixes }

-- `MarkListDone`
unfoldable pub mark_list_done : Manager → Key → Manager
mark_list_done m prefix = update_prefix m prefix (λ s. record s { list_done = true })

-- `TrackKey`
unfoldable pub track_key : Manager → Key → Key → Manager
track_key m k prefix = record m { key_prefix = Map.put m.key_prefix k prefix }

-- `AddPendingKey`
unfoldable pub add_pending_key : Manager → Key → Object → Manager
unfolding track_key
add_pending_key m prefix o =
    track_key
      (update_prefix m prefix
        (λ s. record s { pending = Map.put s.pending (key o) o; last_listed_key = key o }))
      (key o) prefix

-- `UpdateLastListedKey`
unfoldable pub update_last_listed_key : Manager → Key → Object → Manager
update_last_listed_key m prefix o =
    update_prefix m prefix (λ s. record s { last_listed_key = key o })

-- `GetLastListedKey`
unfoldable pub get_last_listed_key : Manager → Key → Key
get_last_listed_key m prefix = elim (Map.get m.prefixes prefix) [
  | none ↦ []
  | some s ↦ s.last_listed_key
]

-- The update of `MarkCompleted`.
abbrev pub complete_in : Key → PrefixState → PrefixState
complete_in k s = record s { pending = Map.delete s.pending k; failed = Map.delete s.failed k }

abbrev finished : Manager → Key → Manager
finished m k = record m { uploads = finish m.uploads k }

-- `MarkCompleted`. `LoadAndDelete` forgets the key's prefix.
unfoldable pub mark_completed : Manager → Key → Manager
mark_completed m k = elim (Map.get m.key_prefix k) [
  | none ↦ finished m k
  | some prefix ↦
      finished
        (update_prefix (record m { key_prefix = Map.delete m.key_prefix k }) prefix (complete_in k))
        k
]

-- The update of `MarkFailed`: from pending to failed.
unfoldable pub fail_in : Key → PrefixState → PrefixState
fail_in k s = elim (Map.get s.pending k) [
  | none ↦ s
  | some o ↦ record s { pending = Map.delete s.pending k; failed = Map.put s.failed k o }
]

-- `MarkFailed`
unfoldable pub mark_failed : Manager → Key → Manager
mark_failed m k = elim (Map.get m.key_prefix k) [
  | none ↦ m
  | some prefix ↦ update_prefix m prefix (fail_in k)
]

-- `RegisterChildPrefix`
unfoldable pub register_child_prefix : Manager → Key → ℕ → Manager
unfolding get_or_create
register_child_prefix m child depth =
    let (s, m') = get_or_create m child in
    record m' { prefixes = Map.put m'.prefixes child (record s { list_depth = depth }) }

-- `ListPrefixes`
unfoldable pub list_prefixes : Manager → List Key
list_prefixes m = Map.keys m.prefixes

-- The four results of `RestorePrefix`. `nil` objects, of a prefix that was restored before, differ
-- from none.
pub record Restored : Type 0 where
  pub objs : Option (List Object)
  pub list_done : Bool
  pub list_depth : ℕ
  pub found : Bool

abbrev not_found : Restored
not_found = record { objs = none; list_done = false; list_depth = 0; found = false }

abbrev pub restored_before : Restored
restored_before = record { objs = none; list_done = false; list_depth = 0; found = true }

-- The keys of a map are tracked under a prefix.
track_all : Map Key Key → Key → Map Key Object → Map Key Key
track_all t prefix [] = t
track_all t prefix ((k, o) ∷ rest) = Map.put (track_all t prefix rest) k prefix

abbrev pub objects : Map Key Object → List Object
objects [] = []
objects ((k, o) ∷ rest) = o ∷ objects rest

-- The failed keys are pending again.
unfoldable pub retry_failed : PrefixState → PrefixState
retry_failed s = record s { pending = Map.copy_into s.pending s.failed; failed = [] }

restore_state : Manager → Key → PrefixState → Restored × Manager
unfolding track_all retry_failed
restore_state m prefix s =
    let s' = retry_failed s in
    (
      record {
        objs = some (objects s'.pending);
        list_done = s.list_done;
        list_depth = s.list_depth;
        found = true;
      },
      record m {
        prefixes = Map.put m.prefixes prefix s';
        key_prefix = track_all m.key_prefix prefix s'.pending;
        restored = Map.put m.restored prefix tt;
      },
    )

-- `RestorePrefix`: once for each prefix of an earlier run.
unfoldable pub restore_prefix : Manager → Key → Restored × Manager
unfolding restore_state
restore_prefix m prefix = elim (Map.get m.prefixes prefix) [
  | none ↦ (not_found, m)
  | some s ↦
      if s.is_new
      then (not_found, m)
      else if Map.contains m.restored prefix
      then (restored_before, m)
      else restore_state m prefix s
]

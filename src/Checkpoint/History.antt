-- ===== src/Checkpoint/History.antt =====
-- Any history of the operations of a checkpoint, against the set of outstanding keys.
use my_sync.Common.{
  ℕ, ◌≡◌, subst, sym, Bool, true, false, ◌&&◌, ◌||◌, not, Option, none, some, [], ◌∷◌, arith,
}
use my_sync.Common.Key.{Key}
use my_sync.Common.Map
use my_sync.Common.Map.{Map, key_keys, ◌=?◌}
use my_sync.Object.{Object, key}
use my_sync.Checkpoint.{
  PrefixState, Manager, Restored, restored_before, prefix_state, mark_list_done, add_pending_key,
  update_last_listed_key, mark_completed, mark_failed, register_child_prefix, retry_failed,
  restore_prefix, restore_state, objects, track_all,
}
use my_sync.Checkpoint.Outstanding.{
  is_outstanding, is_outstanding-add_pending_key, is_outstanding-mark_completed,
  is_outstanding-mark_failed, is_outstanding-mark_list_done, is_outstanding-update_last_listed_key,
  is_outstanding-register_child_prefix, is_outstanding-restore_prefix, holds-retry_failed,
}

-- The calls of the producers, the workers and the restore of a prefix. Saving and `Load`, which makes
-- a new manager of what was saved, are no calls of it; `reload_prefix` of Wire is what comes back.
pub data Call : Type 0 where
  adds lists : Key → Object → Call
  completes fails list_ends restores : Key → Call
  registers : Key → ℕ → Call

unfoldable pub apply : Manager → Call → Manager
apply m (adds p o) = add_pending_key m p o
apply m (lists p o) = update_last_listed_key m p o
apply m (completes k) = mark_completed m k
apply m (fails k) = mark_failed m k
apply m (list_ends p) = mark_list_done m p
apply m (restores p) = (restore_prefix m p).1
apply m (registers p depth) = register_child_prefix m p depth

-- The specification: a set of keys with their prefixes, that adding extends and that completing
-- diminishes by the key under the prefix it was tracked with. Nothing else changes it.
abbrev pub Owed : Type 0
Owed = Key → Key → Bool

unfoldable pub owed_after : (Key → Option Key) → Owed → Call → Owed
owed_after tracked owed (adds p o) q k = ((p =? q) && (key o =? k)) || owed q k
owed_after tracked owed (lists p o) q k = owed q k
owed_after tracked owed (completes j) q k = elim (tracked j) [
  | none ↦ owed q k
  | some p ↦ not ((p =? q) && (j =? k)) && owed q k
]
owed_after tracked owed (fails j) q k = owed q k
owed_after tracked owed (list_ends p) q k = owed q k
owed_after tracked owed (restores p) q k = owed q k
owed_after tracked owed (registers p depth) q k = owed q k

-- Every call of the manager does to the outstanding keys what the specification does: only
-- `MarkCompleted` takes a key away, and dropping a finished prefix loses none.
pub is_outstanding-apply :
    (m : Manager) (c : Call) (q k : Key)
    → is_outstanding (apply m c) q k ≡ owed_after (Map.get m.key_prefix) (is_outstanding m) c q k
unfolding apply owed_after
is_outstanding-apply m (adds p o) q k = is_outstanding-add_pending_key m p q k o
is_outstanding-apply m (lists p o) q k = is_outstanding-update_last_listed_key m p q k o
is_outstanding-apply m (completes j) q k = is_outstanding-mark_completed m j q k
is_outstanding-apply m (fails j) q k = is_outstanding-mark_failed m j q k
is_outstanding-apply m (list_ends p) q k = is_outstanding-mark_list_done m p q k
is_outstanding-apply m (restores p) q k = is_outstanding-restore_prefix m p q k
is_outstanding-apply m (registers p depth) q k = is_outstanding-register_child_prefix m p q k depth

objects_tracked :
    (t : Map Key Key) (p k : Key) (m : Map Key Object)
    → Map.contains m k ≡ true
    → Map.get (track_all t p m) k ≡ some p
unfolding Map.get track_all
objects_tracked t p k [] h = cc
objects_tracked t p k ((j, o) ∷ m) h =
    ground (arith, Map.get-put (track_all t p m) j k p, objects_tracked t p k m)

-- The objects and the manager that a restart goes on with.
abbrev pub Restores : Manager → Key → Restored × Manager → Type 0
Restores m p r =
    (r.0.objs ≡ some (objects (prefix_state r.1 p).pending))
    × ((k : Key) → Map.contains (prefix_state r.1 p).pending k ≡ is_outstanding m p k)
    × ((k : Key) → is_outstanding m p k ≡ true → Map.get r.1.key_prefix k ≡ some p)
    × (restore_prefix r.1 p ≡ (restored_before, r.1))

restore_state-Restores :
    (m : Manager) (p : Key) (s : PrefixState)
    → Map.get m.prefixes p ≡ some s
    → s.is_new ≡ false
    → Restores m p (restore_state m p s)
unfolding restore_state prefix_state is_outstanding restore_prefix
restore_state-Restores m p s e old = (
  ground (arith, put_back),
  λ k. ground (arith, put_back, holds-retry_failed s k),
  λ k h.
      objects_tracked m.key_prefix p k (retry_failed s).pending
        (ground (arith, holds-retry_failed s k)),
  rw (restore_prefix, put_back) (ground (arith, Map.get-put m.restored p p tt)),
)
  where
    put_back : Map.get (Map.put m.prefixes p (retry_failed s)) p ≡ some (retry_failed s)
    put_back = ground (arith, Map.get-put m.prefixes p p (retry_failed s))

-- What a restart finds of a prefix of an earlier run: all of its outstanding keys and no other are
-- pending again, its objects are those of the pending keys, each outstanding key is tracked to the
-- prefix, and a second restore of the prefix hands out nothing.
pub restore_prefix-Restores :
    (m : Manager) (p : Key) (s : PrefixState)
    → Map.get m.prefixes p ≡ some s
    → s.is_new ≡ false
    → Map.contains m.restored p ≡ false
    → Restores m p (restore_prefix m p)
unfolding restore_prefix
restore_prefix-Restores m p s e old first =
    subst (Restores m p) (sym restored) (restore_state-Restores m p s e old)
  where
    restored : restore_prefix m p ≡ restore_state m p s
    restored = rw (restore_prefix, e, old, first)

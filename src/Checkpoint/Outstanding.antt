-- ===== src/Checkpoint/Outstanding.antt =====
-- Which keys are outstanding, pending or failed, under which prefix: the set that a checkpoint
-- promises to keep until each of its keys is completed.
use my_sync.Common.{
  ℕ, ◌≡◌, refl, Bool, true, false, ◌&&◌, ◌||◌, not, none, some, [], ◌∷◌, if◌then◌else◌, is_empty,
  arith, Bool-cases, Option-cases, inl, inr,
}
use my_sync.Common.Key.{Key}
use my_sync.Common.Map
use my_sync.Common.Map.{Map, key_keys, ◌=?◌}
use my_sync.Object.{Object, key}
use my_sync.Checkpoint.{
  PrefixState, Manager, new_prefix, prefix_state, or_new, prefix_done, update_prefix,
  mark_list_done, add_pending_key, update_last_listed_key, complete_in, mark_completed, fail_in,
  mark_failed, register_child_prefix, retry_failed, restore_prefix, restore_state,
}

-- The key is pending or failed in the state of a prefix.
unfoldable pub holds : PrefixState → Key → Bool
holds s k = Map.contains s.pending k || Map.contains s.failed k

-- The key is outstanding under the prefix.
unfoldable pub is_outstanding : Manager → Key → Key → Bool
is_outstanding m prefix k = holds (prefix_state m prefix) k

contains_empty : (m : Map Key Object) (k : Key) → is_empty m ≡ true → Map.contains m k ≡ false
unfolding Map.get
contains_empty [] k e = refl
contains_empty (kv ∷ m) k e = cc

done-holds : (m : Manager) (s : PrefixState) (k : Key) → prefix_done m s ≡ true → holds s k ≡ false
unfolding prefix_done holds
done-holds m s k e = ground (arith, contains_empty s.pending k, contains_empty s.failed k)

-- The state of a prefix after an update: dropped where nothing is left.
prefix_state-update_prefix :
    (m : Manager) (p q : Key) (f : PrefixState → PrefixState)
    → prefix_state (update_prefix m p f) q ≡ (
        if p =? q
        then (if prefix_done m (f (prefix_state m p)) then new_prefix else f (prefix_state m p))
        else prefix_state m q)
unfolding update_prefix prefix_state prefix_done
prefix_state-update_prefix m p q f =
    let old = or_new (Map.get m.prefixes p) in
    let made = Map.put m.prefixes p old in
    ground (
      arith,
      Map.get-delete (Map.put made p (f old)) p q,
      Map.get-put made p q (f old),
      Map.get-put m.prefixes p q old,
    )

holds-update_prefix :
    (m : Manager) (s : PrefixState) (k : Key)
    → holds (if prefix_done m s then new_prefix else s) k ≡ holds s k
unfolding holds Map.get
holds-update_prefix m s k = elim (Bool-cases (prefix_done m s)) [
  | inl done ↦ rw (done, done-holds m s k done)
  | inr more ↦ rw more
]

-- A dropped prefix had nothing outstanding, so an update changes its own prefix alone, and that
-- one by the function alone.
is_outstanding-update_prefix :
    (m : Manager) (p q k : Key) (f : PrefixState → PrefixState)
    → is_outstanding (update_prefix m p f) q k
      ≡ (if p =? q then holds (f (prefix_state m p)) k else is_outstanding m q k)
unfolding is_outstanding
is_outstanding-update_prefix m p q k f =
    ground
      (arith, prefix_state-update_prefix m p q f, holds-update_prefix m (f (prefix_state m p)) k)

-- The same for an update that keeps every key where it is.
outstanding_kept :
    (m : Manager) (p q k : Key) (f : PrefixState → PrefixState)
    → holds (f (prefix_state m p)) k ≡ holds (prefix_state m p) k
    → is_outstanding (update_prefix m p f) q k ≡ is_outstanding m q k
unfolding is_outstanding
outstanding_kept m p q k f same = ground (arith, is_outstanding-update_prefix m p q k f)

holds-add :
    (s : PrefixState) (o : Object) (k : Key)
    → holds (record s { pending = Map.put s.pending (key o) o; last_listed_key = key o }) k
      ≡ ((key o =? k) || holds s k)
unfolding holds
holds-add s o k = ground (arith, Map.get-put s.pending (key o) k o)

holds_complete :
    (s : PrefixState) (j k : Key) → holds (complete_in j s) k ≡ (not (j =? k) && holds s k)
unfolding holds
holds_complete s j k = ground (arith, Map.get-delete s.pending j k, Map.get-delete s.failed j k)

holds-fail : (s : PrefixState) (j k : Key) → holds (fail_in j s) k ≡ holds s k
unfolding holds fail_in
holds-fail s j k = elim (Option-cases (Map.get s.pending j)) [
  | inl e ↦ ground (arith, e)
  | inr (o, e) ↦ ground (arith, e, Map.get-delete s.pending j k, Map.get-put s.failed j k o)
]

pub is_outstanding-add_pending_key :
    (m : Manager) (p q k : Key) (o : Object)
    → is_outstanding (add_pending_key m p o) q k
      ≡ (((p =? q) && (key o =? k)) || is_outstanding m q k)
unfolding add_pending_key is_outstanding prefix_state
is_outstanding-add_pending_key m p q k o = ground (
  arith,
  is_outstanding-update_prefix m p q k (λ (s : PrefixState). record s {
    pending = Map.put s.pending (key o) o;
    last_listed_key = key o;
  }),
  holds-add (prefix_state m p) o k,
)

pub is_outstanding-mark_completed :
    (m : Manager) (j q k : Key)
    → is_outstanding (mark_completed m j) q k ≡ elim (Map.get m.key_prefix j) [
      | none ↦ is_outstanding m q k
      | some p ↦ not ((p =? q) && (j =? k)) && is_outstanding m q k
    ]
unfolding mark_completed is_outstanding prefix_state
is_outstanding-mark_completed m j q k = elim (Option-cases (Map.get m.key_prefix j)) [
  | inl e ↦ ground (arith, e)
  | inr (p, e) ↦ ground (
    arith,
    e,
    is_outstanding-update_prefix (record m { key_prefix = Map.delete m.key_prefix j }) p q k
        (complete_in j),
    holds_complete (prefix_state m p) j k,
  )
]

pub is_outstanding-mark_failed :
    (m : Manager) (j q k : Key) → is_outstanding (mark_failed m j) q k ≡ is_outstanding m q k
unfolding mark_failed
is_outstanding-mark_failed m j q k = elim (Option-cases (Map.get m.key_prefix j)) [
  | inl e ↦ rw (mark_failed, e)
  | inr (p, e) ↦
      rw (mark_failed, e) (outstanding_kept m p q k (fail_in j) (holds-fail (prefix_state m p) j k))
]

-- The operations that only note how far a listing got.
pub is_outstanding-mark_list_done :
    (m : Manager) (p q k : Key) → is_outstanding (mark_list_done m p) q k ≡ is_outstanding m q k
unfolding mark_list_done holds
is_outstanding-mark_list_done m p q k =
    outstanding_kept m p q k (λ s. record s { list_done = true }) refl

pub is_outstanding-update_last_listed_key :
    (m : Manager) (p q k : Key) (o : Object)
    → is_outstanding (update_last_listed_key m p o) q k ≡ is_outstanding m q k
unfolding update_last_listed_key holds
is_outstanding-update_last_listed_key m p q k o =
    outstanding_kept m p q k (λ s. record s { last_listed_key = key o }) refl

pub is_outstanding-register_child_prefix :
    (m : Manager) (p q k : Key) (depth : ℕ)
    → is_outstanding (register_child_prefix m p depth) q k ≡ is_outstanding m q k
unfolding register_child_prefix is_outstanding prefix_state holds
is_outstanding-register_child_prefix m p q k depth =
    let old = prefix_state m p in
    ground (
      arith,
      Map.get-put (Map.put m.prefixes p old) p q (record old { list_depth = depth }),
      Map.get-put m.prefixes p q old,
    )

-- The retried keys are the outstanding ones, and all of them are pending.
pub holds-retry_failed :
    (s : PrefixState) (k : Key) → Map.contains (retry_failed s).pending k ≡ holds s k
unfolding retry_failed holds
holds-retry_failed s k = ground (arith, Map.get-copy_into s.pending s.failed k)

holds-retried : (s : PrefixState) (k : Key) → holds (retry_failed s) k ≡ holds s k
unfolding holds retry_failed Map.get
holds-retried s k = ground (arith, Map.get-copy_into s.pending s.failed k)

restore_state-outstanding :
    (m : Manager) (p q k : Key) (s : PrefixState)
    → Map.get m.prefixes p ≡ some s
    → is_outstanding (restore_state m p s).1 q k ≡ is_outstanding m q k
unfolding restore_state is_outstanding prefix_state
restore_state-outstanding m p q k s e =
    ground (arith, Map.get-put m.prefixes p q (retry_failed s), holds-retried s k)

pub is_outstanding-restore_prefix :
    (m : Manager) (p q k : Key) → is_outstanding (restore_prefix m p).1 q k ≡ is_outstanding m q k
unfolding restore_prefix
is_outstanding-restore_prefix m p q k = elim (Option-cases (Map.get m.prefixes p)) [
  | inl e ↦ rw (restore_prefix, e)
  | inr (s, e) ↦ rw (restore_prefix, e) (ground (arith, restore_state-outstanding m p q k s e))
]

-- ===== src/Prefetch.antt =====
-- `prefetchGateRecords` and `passThroughObjects` (pkg/sync/gate.go). The order in which objects
-- come and the timer fires is a list of events, whose end is the end of the listing. A producer
-- that has returned reads no further, so its `done` signal cuts the output and is left out.
pub mod Batches
use my_sync.Common.{
  ℕ, suc, Option, none, some, List, [], ◌∷◌, ◌++◌, map, length, leb, if◌then◌else◌,
}
use my_sync.Common.Key.{Key}
use my_sync.Common.Map
use my_sync.Common.Map.{Map, key_keys}
use my_sync.Object.{Object, key}
use my_sync.Gate.{SyncRecord}
use my_sync.Filter.{Stream}
use my_sync.Produce.{Gated}

-- An object or a failed listing, or the timer.
pub data Event : Type 0 where
  comes : Option Object → Event
  expires : Event

abbrev pub batch_size : ℕ
batch_size = 500

-- The object with its record in the answer; a query that failed has none for any key.
abbrev pub with_record : Option (Map Key SyncRecord) → Object → Gated
with_record none o = record { obj = some o; rec = none }
with_record (some recs) o = record { obj = some o; rec = Map.get recs (key o) }

-- A flush of an empty batch makes no query.
abbrev pub next_query : ℕ → List Object → ℕ
next_query n [] = n
next_query n (o ∷ objs) = suc n

-- `get_records n` is `GetRecords` at the query numbered `n`; `none` is an error.
module _ (get_records : ℕ → List Key → Option (Map Key SyncRecord)) where
  -- `flush` of a batch.
  unfoldable pub flush : ℕ → List Object → List Gated
  flush n [] = []
  flush n (o ∷ objs) = map (with_record (get_records n (map key (o ∷ objs)))) (o ∷ objs)

  -- The loop, with the batch so far.
  unfoldable pub prefetch_from : ℕ → List Object → List Event → List Gated
  prefetch_from n objs [] = flush n objs
  prefetch_from n objs (expires ∷ events) =
      flush n objs ++ prefetch_from (next_query n objs) [] events
  prefetch_from n objs (comes none ∷ events) =
      flush n objs ++ (record { obj = none; rec = none } ∷ [])
  prefetch_from n objs (comes (some o) ∷ events) =
      let batch = objs ++ (o ∷ []) in
      let full = flush n batch ++ prefetch_from (suc n) [] events in
      let more = prefetch_from n batch events in
      if leb batch_size (length batch) then full else more

  -- `prefetchGateRecords`
  unfoldable pub prefetch : List Event → List Gated
  unfolding prefetch_from
  prefetch events = prefetch_from 0 [] events

-- `passThroughObjects`
unfoldable pub pass_through : Stream → List Gated
pass_through [] = []
pass_through (o ∷ s) = record { obj = o; rec = none } ∷ pass_through s

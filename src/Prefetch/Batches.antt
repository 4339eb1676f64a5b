-- ===== src/Prefetch/Batches.antt =====
-- The batches of the prefetch do not show in what it delivers.
use mathlib.Core.List.{append-nil, append_assoc, map-append}
use my_sync.Common.{
  ℕ, suc, ◌≡◌, refl, sym, ap, ◌∙◌, Bool, true, false, ◌||◌, Option, none, some, List, [], ◌∷◌, ◌++◌,
  map, arith,
}
use my_sync.Common.Key.{Key, key_eq}
use my_sync.Common.Map
use my_sync.Common.Map.{Map, key_keys}
use my_sync.Object.{Object, key}
use my_sync.Gate.{SyncRecord}
use my_sync.Produce.{Gated}
use my_sync.Prefetch.{
  Event, comes, expires, with_record, flush, next_query, prefetch_from, prefetch,
}

-- The objects that come, up to a failed listing, which comes last.
abbrev pub coming : List Event → List (Option Object)
coming [] = []
coming (expires ∷ events) = coming events
coming (comes none ∷ events) = none ∷ []
coming (comes (some o) ∷ events) = some o ∷ coming events

-- The object with its record in `table`.
abbrev pub tabled : (Key → Option SyncRecord) → Option Object → Gated
tabled table none = record { obj = none; rec = none }
tabled table (some o) = record { obj = some o; rec = table (key o) }

abbrev pub asked : Key → List Key → Bool
asked k [] = false
asked k (j ∷ ks) = key_eq j k || asked k ks

-- Every query is answered, with what the table has of the keys that it asks for.
abbrev pub Answers :
    (ℕ → List Key → Option (Map Key SyncRecord)) → (Key → Option SyncRecord) → Type 0
Answers get_records table =
    (n : ℕ) (ks : List Key)
    → (recs : Map Key SyncRecord) × (get_records n ks ≡ some recs)
      × ((k : Key) → asked k ks ≡ true → Map.get recs k ≡ table k)

with_record-tabled :
    (table : Key → Option SyncRecord) (recs : Map Key SyncRecord) (objs : List Object)
    → ((k : Key) → asked k (map key objs) ≡ true → Map.get recs k ≡ table k)
    → map (with_record (some recs)) objs ≡ map (λ o. tabled table (some o)) objs
with_record-tabled table recs [] h = refl
with_record-tabled table recs (o ∷ objs) h = ground (
  arith,
  h (key o) (ground (arith)),
  with_record-tabled table recs objs (λ k in_rest. h k (ground (arith, in_rest))),
)

module _ (get_records : ℕ → List Key → Option (Map Key SyncRecord))
    (table : Key → Option SyncRecord) (answers : Answers get_records table) where
  flush-tabled :
      (n : ℕ) (objs : List Object)
      → flush get_records n objs ≡ map (λ o. tabled table (some o)) objs
  unfolding flush
  flush-tabled n [] = refl
  flush-tabled n (o ∷ objs) =
      let (recs, answered, agrees) = answers n (map key (o ∷ objs)) in
      ap (λ r. map (with_record r) (o ∷ objs)) answered
      ∙ with_record-tabled table recs (o ∷ objs) agrees

  prefetch_from-tabled :
      (n : ℕ) (objs : List Object) (events : List Event)
      → prefetch_from get_records n objs events
        ≡ map (λ o. tabled table (some o)) objs ++ map (tabled table) (coming events)
  unfolding prefetch_from
  prefetch_from-tabled n objs [] =
      flush-tabled n objs ∙ sym (append-nil (map (λ o. tabled table (some o)) objs))
  prefetch_from-tabled n objs (expires ∷ events) =
      ground (arith, flush-tabled n objs, prefetch_from-tabled (next_query n objs) [] events)
  prefetch_from-tabled n objs (comes none ∷ events) = ground (arith, flush-tabled n objs)
  prefetch_from-tabled n objs (comes (some o) ∷ events) = ground (
    arith,
    flush-tabled n (objs ++ (o ∷ [])),
    prefetch_from-tabled (suc n) [] events,
    prefetch_from-tabled n (objs ++ (o ∷ [])) events,
    map-append (λ o'. tabled table (some o')) objs (o ∷ []),
    append_assoc (map (λ o'. tabled table (some o')) objs) (tabled table (some o) ∷ [])
        (map (tabled table) (coming events)),
  )

  -- If every query is answered with what a table has of its keys, then the prefetch delivers each
  -- object that comes, in order and with the table's record, whatever the batches and the timer.
  -- A failed listing is passed on and ends it.
  pub prefetch-tabled :
      (events : List Event) → prefetch get_records events ≡ map (tabled table) (coming events)
  unfolding prefetch
  prefetch-tabled events = prefetch_from-tabled 0 [] events

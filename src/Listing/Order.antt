-- ===== src/Listing/Order.antt =====
-- What a listing page by page delivers.
use my_sync.Common.{
  ℕ, ◌≡◌, refl, subst, Bool, true, false, Option, none, some, List, [], ◌∷◌, ◌++◌, Bool-cases, inl,
  inr, ◌⊎◌, if◌then◌else◌, arith,
}
use my_sync.Common.Key.{Key}
use my_sync.Copy.Sums.{some_injective}
use my_sync.Object.{Object, key}
use my_sync.Filter.{Stream}
use my_sync.Filter.Laws.{objects, Above, Rising}
use my_sync.Listing.{
  Page, Walk, left_off, goes_on, out_of_order, beyond, walk, ask, without_marker, list_pages,
  ListAnswers, gives, not_supported, list_all,
}

-- Strictly rising keys above `low`, none beyond the end key, and nothing after a failure.
abbrev pub OrderedStream : Key → Option Key → Stream → Type 0
OrderedStream end low [] = Unit
OrderedStream end low (none ∷ s) = s ≡ []
OrderedStream end low (some o ∷ s) =
    Above low (key o) × (beyond end (key o) ≡ false) × OrderedStream end (some (key o)) s

-- A walk that ends the listing is ordered, and so is one that goes on, whatever ordered stream follows.
abbrev WalksRight : Key → Option Key → Stream × Walk → Type 0
WalksRight end low (s, left_off) = OrderedStream end low s
WalksRight end low (s, goes_on next) =
    OrderedStream end low s
    × ((t : Stream) → OrderedStream end next t → OrderedStream end low (s ++ t))

in_order : (low : Option Key) (k : Key) → out_of_order low k ≡ false → Above low k
in_order none k h = tt
in_order (some last) k h = ground (arith, h)

WalksRight-next :
    (end : Key) (low : Option Key) (o : Object) (r : Stream × Walk)
    → Above low (key o)
    → beyond end (key o) ≡ false
    → WalksRight end (some (key o)) r
    → WalksRight end low (some o ∷ r.0, r.1)
WalksRight-next end low o (s, left_off) above inside h = (above, inside, h)
WalksRight-next end low o (s, goes_on next) above inside h =
    ((above, inside, h.0), (λ t g. (above, inside, h.1 t g)))

walk-WalksRight :
    (end : Key) (low : Option Key) (os : List Object) → WalksRight end low (walk end low os)
unfolding walk
walk-WalksRight end low [] = (tt, (λ t h. h))
walk-WalksRight end low (o ∷ os) = elim (Bool-cases (out_of_order low (key o))) [
  | inl e ↦ rw (walk, e) refl
  | inr e ↦ elim (Bool-cases (beyond end (key o))) [
    | inl f ↦ rw (walk, e, f) tt
    | inr f ↦
        rw (walk, e, f)
          (WalksRight-next end low o (walk end (some (key o)) os) (in_order low (key o) e) f
            (walk-WalksRight end (some (key o)) os))
  ]
]

Walk-cases : (w : Walk) → (w ≡ left_off) ⊎ ((next : Option Key) × (w ≡ goes_on next))
Walk-cases left_off = inl refl
Walk-cases (goes_on next) = inr (next, refl)

list_pages-OrderedStream :
    (end : Key) (low : Option Key) (p : Page) (calls : List (ℕ → Option Page))
    → OrderedStream end low (list_pages end low p calls)
unfolding list_pages
list_pages-OrderedStream end low p [] =
    by_walk (walk end low p.objs) (walk-WalksRight end low p.objs) p.has_more
  where
    by_walk :
        (r : Stream × Walk)
        → WalksRight end low r
        → (b : Bool)
        → OrderedStream end low
            (elim r.1 [ left_off ↦ r.0 | goes_on next ↦ if b then r.0 ++ (none ∷ []) else r.0 ])
    by_walk (s, left_off) h b = h
    by_walk (s, goes_on next) h true = h.1 (none ∷ []) refl
    by_walk (s, goes_on next) h false = h.0
list_pages-OrderedStream end low p (answers ∷ calls) =
    by_walk (walk end low p.objs) (walk-WalksRight end low p.objs) p.has_more (ask 0 4 answers)
      (λ next q. list_pages-OrderedStream end next (without_marker next q) calls)
  where
    by_walk :
        (r : Stream × Walk)
        → WalksRight end low r
        → (b : Bool) (asked : Option Page)
        → ((next : Option Key) (q : Page)
            → OrderedStream end next (list_pages end next (without_marker next q) calls))
        → OrderedStream end low (elim r.1 [
          | left_off ↦ r.0
          | goes_on next ↦
              if b
              then elim asked [
                | none ↦ r.0 ++ (none ∷ [])
                | some q ↦ r.0 ++ list_pages end next (without_marker next q) calls
              ]
              else r.0
        ])
    by_walk (s, left_off) h b asked later = h
    by_walk (s, goes_on next) h true none later = h.1 (none ∷ []) refl
    by_walk (s, goes_on next) h true (some q) later = h.1 _ (later next q)
    by_walk (s, goes_on next) h false asked later = h.0

-- A storage that is listed page by page, without its start key: whatever the pages hold and however
-- many calls fail, the keys that `listAll` delivers rise strictly, as the producer needs it, none
-- is beyond the end key, and a failure is the last that is delivered.
pub list_all-OrderedStream :
    (prefix start end : Key) (ans : ListAnswers) (p : Page) (s : Stream)
    → ans.all ≡ not_supported
    → ans.first ≡ gives p
    → list_all prefix start end false ans ≡ some s
    → OrderedStream end none s × Rising none (objects s)
unfolding list_all
list_all-OrderedStream prefix start end ans p s paged first e =
    let same : list_pages end none p ans.calls ≡ s =
      some_injective _ s (rw (list_all, paged, first) at e) in
    let ordered =
      subst (OrderedStream end none) same (list_pages-OrderedStream end none p ans.calls) in
    (ordered, rising none s ordered)
  where
    rising : (low : Option Key) (s : Stream) → OrderedStream end low s → Rising low (objects s)
    rising low [] h = tt
    rising low (none ∷ s) h = tt
    rising low (some o ∷ s) h = (h.0, rising (some (key o)) s h.2)

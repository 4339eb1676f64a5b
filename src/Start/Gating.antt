-- ===== src/Start/Gating.antt =====
-- The gate's prefetch changes no object of the listing.
use mathlib.Core.List.{append_assoc, append-nil, map-append}
use my_sync.Common.{
  ℕ, suc, ◌≡◌, refl, sym, ap, ◌∙◌, Bool, true, false, Option, none, some, List, [], ◌∷◌, ◌++◌, map,
  if◌then◌else◌, by_test, leb, length,
}
use my_sync.Common.Key.{Key}
use my_sync.Common.Map.{Map}
use my_sync.Object.{Object, key}
use my_sync.Gate.{SyncRecord}
use my_sync.Filter.{Stream}
use my_sync.Filter.Laws.{objects}
use my_sync.Prefetch.{
  Event, comes, expires, prefetch, prefetch_from, flush, next_query, with_record, pass_through,
  batch_size,
}
use my_sync.Prefetch.Batches.{coming}
use my_sync.Produce.Compare.{Env, use_first_gate}
use my_sync.Produce.{Gated, ignored_dir}
use my_sync.Produce.Safety.{kept, kept_of}
use my_sync.Start.{Surroundings, timed, gated}

abbrev pub objs_of : List Gated → List (Option Object)
objs_of [] = []
objs_of (g ∷ gs) = g.obj ∷ objs_of gs

objs_of-append : (gs hs : List Gated) → objs_of (gs ++ hs) ≡ objs_of gs ++ objs_of hs
objs_of-append [] hs = refl
objs_of-append (g ∷ gs) hs = ap (◌∷◌ g.obj) (objs_of-append gs hs)

objs_of-with_record :
    (r : Option (Map Key SyncRecord)) (os : List Object)
    → objs_of (map (with_record r) os) ≡ map some os
objs_of-with_record r [] = refl
objs_of-with_record none (o ∷ os) = ap (◌∷◌ (some o)) (objs_of-with_record none os)
objs_of-with_record (some m) (o ∷ os) = ap (◌∷◌ (some o)) (objs_of-with_record (some m) os)

module _ (get_records : ℕ → List Key → Option (Map Key SyncRecord)) where
  objs_of-flush : (n : ℕ) (os : List Object) → objs_of (flush get_records n os) ≡ map some os
  unfolding flush
  objs_of-flush n [] = refl
  objs_of-flush n (o ∷ os) = objs_of-with_record (get_records n (map key (o ∷ os))) (o ∷ os)

  flushed_then :
      (n : ℕ) (os : List Object) (gs : List Gated) (rest : List (Option Object))
      → objs_of gs ≡ rest
      → objs_of (flush get_records n os ++ gs) ≡ map some os ++ rest
  flushed_then n os gs rest e =
      objs_of-append (flush get_records n os) gs
      ∙ ap (λ xs. xs ++ objs_of gs) (objs_of-flush n os)
      ∙ ap (λ xs. map some os ++ xs) e

  objs_of-prefetch_from :
      (n : ℕ) (os : List Object) (events : List Event)
      → objs_of (prefetch_from get_records n os events) ≡ map some os ++ coming events
  unfolding prefetch_from
  objs_of-prefetch_from n os [] = objs_of-flush n os ∙ sym (append-nil (map some os))
  objs_of-prefetch_from n os (expires ∷ events) =
      flushed_then n os (prefetch_from get_records (next_query n os) [] events) (coming events)
        (objs_of-prefetch_from (next_query n os) [] events)
  objs_of-prefetch_from n os (comes none ∷ events) =
      flushed_then n os (record { obj = none; rec = none } ∷ []) (none ∷ []) refl
  objs_of-prefetch_from n os (comes (some o) ∷ events) =
      by_test (λ gs. objs_of gs ≡ map some os ++ some o ∷ coming events)
        (leb batch_size (length (os ++ (o ∷ []))))
        (λ _.
          flushed_then n (os ++ (o ∷ [])) (prefetch_from get_records (suc n) [] events)
            (coming events) (objs_of-prefetch_from (suc n) [] events)
          ∙ regroup)
        (λ _. objs_of-prefetch_from n (os ++ (o ∷ [])) events ∙ regroup)
    where
      regroup : map some (os ++ (o ∷ [])) ++ coming events ≡ map some os ++ some o ∷ coming events
      regroup =
          ap (λ xs. xs ++ coming events) (map-append some os (o ∷ []))
          ∙ append_assoc (map some os) (some o ∷ []) (coming events)

-- The objects without the directories that the producer ignores.
unfoldable pub keep : Env → List Object → List Object
keep env [] = []
keep env (o ∷ os) = let rest = keep env os in if ignored_dir env o then rest else o ∷ rest

kept-keep : (env : Env) (gs : List Gated) → kept env gs ≡ keep env (objects (objs_of gs))
unfolding keep
kept-keep env [] = refl
kept-keep env (g ∷ gs) = of_object g.obj (kept-keep env gs)
  where
    of_object :
        (o : Option Object)
        → kept env gs ≡ keep env (objects (objs_of gs))
        → kept_of env o (kept env gs) ≡ keep env (objects (o ∷ objs_of gs))
    of_object none e = refl
    of_object (some o) e = ap (λ rest. if ignored_dir env o then rest else o ∷ rest) e

objs_of-pass_through : (s : Stream) → objs_of (pass_through s) ≡ s
unfolding pass_through
objs_of-pass_through [] = refl
objs_of-pass_through (o ∷ s) = ap (◌∷◌ o) (objs_of-pass_through s)

-- A stream ends behind a failure.
abbrev pub Ends : Stream → Type 0
Ends [] = Unit
Ends (none ∷ s) = s ≡ []
Ends (some o ∷ s) = Ends s

coming_all : (s : Stream) → Ends s → coming (map comes s) ≡ s
coming_all [] h = refl
coming_all (none ∷ s) h = ap (◌∷◌ none) (sym h)
coming_all (some o ∷ s) h = ap (◌∷◌ (some o)) (coming_all s h)

coming-timed : (bs : List Bool) (s : Stream) → Ends s → coming (timed bs s) ≡ s
unfolding timed
coming-timed [] s h = coming_all s h
coming-timed (true ∷ bs) s h = coming-timed bs s h
coming-timed (false ∷ bs) [] h = coming-timed bs [] tt
coming-timed (false ∷ bs) (none ∷ s) h = ap (◌∷◌ none) (sym h)
coming-timed (false ∷ bs) (some o ∷ s) h = ap (◌∷◌ (some o)) (coming-timed bs s h)

-- With the gate or without it, whenever its timer fires and whatever the queries answer.
pub objs_of-gated :
    (w : Surroundings) (env : Env) (s : Stream) → Ends s → objs_of (gated w env s) ≡ s
unfolding gated prefetch
objs_of-gated w env s h =
    by_test (λ gs. objs_of gs ≡ s) (use_first_gate env)
      (λ _. objs_of-prefetch_from w.get_records 0 [] (timed w.fires s) ∙ coming-timed w.fires s h)
      (λ _. objs_of-pass_through s)

pub kept-gated :
    (w : Surroundings) (env : Env) (s : Stream)
    → Ends s
    → kept env (gated w env s) ≡ keep env (objects s)
kept-gated w env s h =
    kept-keep env (gated w env s) ∙ ap (λ os. keep env (objects os)) (objs_of-gated w env s h)

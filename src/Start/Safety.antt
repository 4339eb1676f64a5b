-- ===== src/Start/Safety.antt =====
-- From the answers of the storages to the tasks: what listing a prefix can delete.
use my_sync.Common.{
  ◌≡◌, refl, sym, subst, ◌∙◌, Bool, true, false, not, ◌&&◌, Option, none, some, List, [], ◌∷◌,
  arith, All, is_empty, Bool-cases, inl, inr, by_test,
}
use my_sync.Common.Key.{Key}
use my_sync.Object.{Object}
use my_sync.Filter.{Stream, filter, filter_key}
use my_sync.Filter.Laws.{objects, Rising, Rising-drop, filter_lem}
use my_sync.Listing.{Page, ListAnswers, not_supported, gives, list_all}
use my_sync.Listing.Order.{list_all-OrderedStream}
use my_sync.Produce.Compare.{Env}
use my_sync.Produce.Effects.{State}
use my_sync.Produce.{Gated, ignored_dir}
use my_sync.Produce.Safety.{EndedSafe, Plain, PlainIf, kept, produce-Safe}
use my_sync.Start.{
  Surroundings, filtered, gated, produce_listed, produce_found, last_listed, start_after,
  include_start, listing, target_listing, start_single,
}
use my_sync.Start.Gating.{objs_of, keep, Ends, objs_of-gated, kept-gated}
use my_sync.Start.Excluded.{InBounds, ruled_out, shown_split, filtered-Outside, EndedSafe-both}
use my_sync.Produce.Foreign.{Outside, produce-Foreign}
use my_sync.Produce.Rule.{MetIf}

keep-Rising :
    (env : Env) (low : Option Key) (os : List Object) → Rising low os → Rising low (keep env os)
unfolding keep
keep-Rising env low [] h = tt
keep-Rising env low (o ∷ os) h =
    by_test (Rising low) (ignored_dir env o) (λ _. keep-Rising env low os (Rising-drop low o os h))
      (λ _. (h.0, keep-Rising env (some _) os h.1))

module _ (w : Surroundings) (env : Env) where
  filtered-Ends : (s : Stream) → Ends (filtered w env s)
  unfolding filter
  filtered-Ends [] = tt
  filtered-Ends (none ∷ s) = refl
  filtered-Ends (some o ∷ s) =
      by_test Ends (filter_key w.path_match env.config w.now env.config.rules o)
        (λ _. filtered-Ends s) (λ _. filtered-Ends s)

  filtered-Plain : (s : Stream) → All Plain (objects s) → All PlainIf (filtered w env s)
  unfolding filter
  filtered-Plain [] h = tt
  filtered-Plain (none ∷ s) h = (tt, tt)
  filtered-Plain (some o ∷ s) h =
      by_test (All PlainIf) (filter_key w.path_match env.config w.now env.config.rules o)
        (λ _. (h.0, filtered-Plain s h.1)) (λ _. filtered-Plain s h.1)

  filtered-Rising :
      (s : Stream) → Rising none (objects s) → Rising none (objects (filtered w env s))
  filtered-Rising s h = (filter_lem w.path_match env.config w.now env.config.rules none s h).1

plain_objects : (gs : List Gated) → All PlainIf (objs_of gs) → All (λ (g : Gated). PlainIf g.obj) gs
plain_objects [] h = tt
plain_objects (g ∷ gs) h = (h.0, plain_objects gs h.1)

met_objects :
    (Met : Object → Type 0) (gs : List Gated)
    → All (MetIf Met) (objs_of gs)
    → All (λ (g : Gated). MetIf Met g.obj) gs
met_objects Met [] h = tt
met_objects Met (g ∷ gs) h = (h.0, met_objects Met gs h.1)

met_stream : (Met : Object → Type 0) (s : Stream) → Ends s → All Met (objects s) → All (MetIf Met) s
met_stream Met [] ends h = tt
met_stream Met (none ∷ s) ends h = (tt, subst (All (MetIf Met)) (sym ends) tt)
met_stream Met (some o ∷ s) ends h = (h.0, met_stream Met s ends h.1)

-- What the source has of a prefix, without the directories that the options ignore.
abbrev pub shown : Env → Stream → List Object
shown env src = keep env (objects src)

produce_listed-Safe :
    (w : Surroundings) (env : Env) (src dst : Stream) (st : State)
    → All Plain (objects src)
    → All (InBounds w env) (objects src)
    → Rising none (objects src)
    → Rising none (objects dst)
    → st.tasks ≡ []
    → st.dst_delay_del ≡ []
    → EndedSafe (shown env src) (produce_listed w env src dst st)
unfolding produce_listed
produce_listed-Safe w env src dst st plain bounded srcs dsts none_sent none_delayed =
    EndedSafe-both _ _ _ (λ k. shown_split w env k src bounded) (produce_listed w env src dst st)
      (subst (λ source. EndedSafe source (produce_listed w env src dst st)) same
        (produce-Safe env (gated w env passing) (filtered w env dst) st
          (plain_objects (gated w env passing) (
            subst (All PlainIf) (sym (objs_of-gated w env passing (filtered-Ends w env src)))
              (filtered-Plain w env src plain)))
          (subst (Rising none) (sym same)
            (keep-Rising env none (objects passing) (filtered-Rising w env src srcs)))
          (filtered-Rising w env dst dsts) none_sent none_delayed))
      (produce-Foreign env left (gated w env passing) (filtered w env dst) st
        (met_objects _ (gated w env passing) (
          subst (All (MetIf (Outside env left)))
            (sym (objs_of-gated w env passing (filtered-Ends w env src)))
            (met_stream _ passing (filtered-Ends w env src) (filtered-Outside w env src src srcs))))
        (filtered-Outside w env src dst dsts) (rw none_sent tt, rw none_delayed tt))
  where
    passing : Stream
    passing = filtered w env src

    left : List Object
    left = ruled_out w env (objects src)

    same : kept env (gated w env passing) ≡ shown env passing
    same = kept-gated w env passing (filtered-Ends w env src)

some_injective : (s t : Stream) → some s ≡ some t → s ≡ t
some_injective s t h = cc

-- A storage that is listed page by page, whatever the pages hold and whichever calls fail.
abbrev pub Paged : ListAnswers → Type 0
Paged ans = (ans.all ≡ not_supported) × ((p : Page) × (ans.first ≡ gives p))

without_start :
    (prefix start end : Key) (include : Bool) (ans : ListAnswers)
    → (include && not (is_empty start)) ≡ false
    → list_all prefix start end include ans ≡ list_all prefix start end false ans
unfolding list_all
without_start prefix [] end true ans h = refl
without_start prefix (c ∷ start) end true ans h = cc
without_start prefix start end false ans h = refl

module _ (env : Env) (st : State) (no_start : env.config.start ≡ []) where
  start_unasked : (include_start env st && not (is_empty (start_after env st))) ≡ false
  start_unasked = elim (Bool-cases (is_empty (last_listed st.manager env.prefix))) [
    | inl fresh ↦ ground (arith, fresh, no_start)
    | inr resumed ↦ ground (arith, resumed)
  ]

  listing-Rising :
      (answers : Key → ListAnswers) (s : Stream)
      → Paged (answers (start_after env st))
      → listing env st answers ≡ some s
      → Rising none (objects s)
  listing-Rising answers s (paged, (p, first)) e =
      (list_all-OrderedStream env.prefix (start_after env st) env.config.end
        (answers (start_after env st)) p s paged first
        (sym (
            without_start env.prefix (start_after env st) env.config.end (include_start env st)
              (answers (start_after env st)) start_unasked)
          ∙ e)).1

-- The source objects that the listing of the prefix shows, before any filter; none where it fails.
abbrev pub source_shown : Surroundings → Env → State → List Object
source_shown w env st = elim (listing env st w.source) [ none ↦ [] | some src ↦ shown env src ]

-- No object of the listing has the size -2, or a size or times out of the options' bounds.
abbrev pub Eligible : Surroundings → Env → Option Stream → Type 0
Eligible w env none = Unit
Eligible w env (some s) = All Plain (objects s) × All (InBounds w env) (objects s)

abbrev RisingListing : Option Stream → Type 0
RisingListing listed = (s : Stream) → listed ≡ some s → Rising none (objects s)

found-Safe :
    (w : Surroundings) (env : Env) (st : State) (src dst : Option Stream)
    → Eligible w env src
    → RisingListing src
    → RisingListing dst
    → st.tasks ≡ []
    → st.dst_delay_del ≡ []
    → EndedSafe (elim src [ none ↦ [] | some s ↦ shown env s ]) (produce_found w env st src dst)
unfolding produce_found
found-Safe w env st none dst plain srcs dsts none_sent none_delayed =
    (rw none_sent tt, rw none_delayed tt)
found-Safe w env st (some src) none plain srcs dsts none_sent none_delayed =
    (rw none_sent tt, rw none_delayed tt)
found-Safe w env st (some src) (some dst) plain srcs dsts none_sent none_delayed =
    produce_listed-Safe w env src dst st plain.0 plain.1 (srcs src refl) (dsts dst refl) none_sent
      none_delayed

target_listing-Rising :
    (w : Surroundings) (env : Env) (st : State)
    → env.config.start ≡ []
    → Paged (w.target (start_after env st))
    → RisingListing (target_listing w env st)
target_listing-Rising w env st no_start paged =
    by_test RisingListing env.config.force_update
      (λ _ s e. subst (λ s. Rising none (objects s)) (some_injective [] s e) tt)
      (λ _ s e. listing-Rising env st no_start w.target s paged e)

-- From the answers of the storages to the tasks. Let both storages be listed page by page, without
-- `--start`, and let the source list no object of the size -2 and none that the bounds on size, age
-- and time leave out. Whatever the pages hold, in whatever order, whichever calls fail, however the
-- rules include and exclude, whenever the gate's timer fires and whatever its database answers, in a
-- first run or a resumed one: `startSingleProducer` deletes nothing at the destination, now or later,
-- of a key that the unfiltered listing of the source shows, directories that the options ignore aside.
pub start_single-Safe :
    (w : Surroundings) (env : Env) (st : State)
    → env.config.start ≡ []
    → Paged (w.source (start_after env st))
    → Paged (w.target (start_after env st))
    → Eligible w env (listing env st w.source)
    → st.tasks ≡ []
    → st.dst_delay_del ≡ []
    → EndedSafe (source_shown w env st) (start_single w env st)
unfolding start_single
start_single-Safe w env st no_start source_paged target_paged plain none_sent none_delayed =
    found-Safe w env st (listing env st w.source) (target_listing w env st) plain
      (λ s e. listing-Rising env st no_start w.source s source_paged e)
      (target_listing-Rising w env st no_start target_paged) none_sent none_delayed

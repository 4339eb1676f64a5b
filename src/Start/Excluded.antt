-- ===== src/Start/Excluded.antt =====
-- What the include and exclude rules leave out is left out of both listings.
use my_sync.Common.{
  ◌≡◌, refl, Bool, true, false, not, ◌&&◌, none, some, List, [], ◌∷◌, arith, All, if◌then◌else◌,
  Bool-cases, inl, inr,
}
use my_sync.Common.Key.{Key, key_eq}
use my_sync.Object.{Object, key, is_dir, is_symlink}
use my_sync.Rules.{match_full_path, match_leveled_path}
use my_sync.Filter.{Stream, filter, filter_key, in_bounds}
use my_sync.Filter.Laws.{objects, Rising, Passes, filter_lem}
use my_sync.Produce.Compare.{Env}
use my_sync.Produce.Effects.{State}
use my_sync.Produce.{Ended, finished, stopped, failed, panicked}
use my_sync.Produce.Harmless.{key_in, Justified, Safe}
use my_sync.Produce.Safety.{EndedSafe}
use my_sync.Produce.Foreign.{Outside}
use my_sync.Start.{Surroundings, filtered}
use my_sync.Start.Gating.{keep}

-- What is safe for two lists is safe for one that has no other key.
module _ (xs ys zs : List Object)
    (split : (k : Key) → key_in k xs ≡ false → key_in k ys ≡ false → key_in k zs ≡ false) where
  Safe-both : (st : State) → Safe xs st → Safe ys st → Safe zs st
  Safe-both st (tasks, delayed) (tasks', delayed') =
      (both_tasks st.tasks tasks tasks', both_keys st.dst_delay_del delayed delayed')
    where
      both_tasks :
          (ts : List Object) → All (Justified xs) ts → All (Justified ys) ts → All (Justified zs) ts
      both_tasks [] h g = tt
      both_tasks (t ∷ ts) h g = ((λ e. split (key t) (h.0 e) (g.0 e)), both_tasks ts h.1 g.1)

      both_keys :
          (ks : List Key)
          → All (λ k. key_in k xs ≡ false) ks
          → All (λ k. key_in k ys ≡ false) ks
          → All (λ k. key_in k zs ≡ false) ks
      both_keys [] h g = tt
      both_keys (k ∷ ks) h g = (split k h.0 g.0, both_keys ks h.1 g.1)

  pub EndedSafe-both : (e : Ended) → EndedSafe xs e → EndedSafe ys e → EndedSafe zs e
  EndedSafe-both (finished st) h g = Safe-both st h g
  EndedSafe-both (stopped st) h g = Safe-both st h g
  EndedSafe-both (failed st) h g = Safe-both st h g
  EndedSafe-both (panicked st) h g = Safe-both st h g

module _ (w : Surroundings) (env : Env) where
  -- What the rules say of a key.
  unfoldable allowed : Key → Bool
  allowed k =
      if env.config.match_full_path
      then match_full_path w.path_match env.config.rules k
      else match_leveled_path w.path_match env.config.rules k

  -- The bounds on size, age and time do not leave the object out.
  abbrev pub InBounds : Object → Type 0
  InBounds o =
      (if not (is_dir o) && not (is_symlink o) then in_bounds env.config w.now o else true) ≡ true

  unfoldable pub ruled_out : List Object → List Object
  unfolding allowed
  ruled_out [] = []
  ruled_out (o ∷ os) = let rest = ruled_out os in if allowed (key o) then rest else o ∷ rest

  abbrev passes : Object → Bool
  passes o = filter_key w.path_match env.config w.now env.config.rules o

  -- An object in bounds passes the filter exactly if the rules allow its key.
  passes-allowed : (o : Object) → InBounds o → passes o ≡ allowed (key o)
  unfolding filter_key allowed
  passes-allowed o h = ground (arith, h)

  allowed-passes : (o : Object) → passes o ≡ true → allowed (key o) ≡ true
  unfolding filter_key allowed
  allowed-passes o h = ground (arith, h)

  allowed-Outside :
      (k : Key) (os : List Object) → allowed k ≡ true → key_in k (ruled_out os) ≡ false
  unfolding ruled_out
  allowed-Outside k [] h = refl
  allowed-Outside k (o ∷ os) h = elim (Bool-cases (key_eq (key o) k)) [
    | inl same ↦ ground (arith, same, h, allowed-Outside k os h)
    | inr other ↦ ground (arith, other, allowed-Outside k os h)
  ]

  pub shown_split :
      (k : Key) (s : Stream)
      → All InBounds (objects s)
      → key_in k (keep env (objects (filtered w env s))) ≡ false
      → key_in k (ruled_out (objects s)) ≡ false
      → key_in k (keep env (objects s)) ≡ false
  unfolding filter ruled_out keep
  shown_split k [] h seen out = refl
  shown_split k (none ∷ s) h seen out = refl
  shown_split k (some o ∷ s) h seen out =
      ground (arith, passes-allowed o h.0, seen, out, shown_split k s h.1)

  pub filtered-Outside :
      (src s : Stream)
      → Rising none (objects s)
      → All (Outside env (ruled_out (objects src))) (objects (filtered w env s))
  filtered-Outside src s rising =
      out (objects (filtered w env s))
        (filter_lem w.path_match env.config w.now env.config.rules none s rising).0
    where
      out :
          (os : List Object)
          → All (Passes w.path_match env.config w.now env.config.rules) os
          → All (Outside env (ruled_out (objects src))) os
      out [] h = tt
      out (o ∷ os) h = (allowed-Outside (key o) (objects src) (allowed-passes o h.0), out os h.1)

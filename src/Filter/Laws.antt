-- ===== src/Filter/Laws.antt =====
-- What a filter keeps of a stream.
use my_sync.Common.{
  ℕ, ◌+◌, ◌≡◌, refl, Bool, true, false, Option, none, some, List, [], ◌∷◌, arith, All, length,
  Bool-cases, inl, inr,
}
use my_sync.Common.Key.{Key, key_lt, key_lt_trans}
use my_sync.Config.{Config, Rule}
use my_sync.Object.{Object, key}
use my_sync.Filter.{Stream, filter_key, filter, excluded}

-- The objects of a stream before its listing fails, if it does.
abbrev pub objects : Stream → List Object
objects [] = []
objects (none ∷ s) = []
objects (some o ∷ s) = o ∷ objects s

abbrev pub listing_failed : Stream → Bool
listing_failed [] = false
listing_failed (none ∷ s) = true
listing_failed (some o ∷ s) = listing_failed s

-- The keys of a stream rise strictly, each above `low` if that is given.
abbrev pub Above : Option Key → Key → Type 0
Above none k = Unit
Above (some low) k = key_lt low k ≡ true

abbrev pub Rising : Option Key → List Object → Type 0
Rising low [] = Unit
Rising low (o ∷ os) = Above low (key o) × Rising (some (key o)) os

pub Rising-weaken :
    (low high : Key) (os : List Object)
    → key_lt low high ≡ true
    → Rising (some high) os
    → Rising (some low) os
Rising-weaken low high [] h r = tt
Rising-weaken low high (o ∷ os) h r = (key_lt_trans low high (key o) h r.0, r.1)

pub Rising-any : (low : Key) (os : List Object) → Rising (some low) os → Rising none os
Rising-any low [] r = tt
Rising-any low (o ∷ os) r = (tt, r.1)

pub Rising-drop :
    (low : Option Key) (o : Object) (os : List Object) → Rising low (o ∷ os) → Rising low os
Rising-drop none o os r = Rising-any (key o) os r.1
Rising-drop (some low) o os r = Rising-weaken low (key o) os r.0 r.1

module _ (path_match : Key → Key → Bool) (config : Config) (now : ℕ) (rules : List Rule) where
  abbrev pub Passes : Object → Type 0
  Passes o = filter_key path_match config now rules o ≡ true

  -- What a pass leaves of a stream: objects that pass alone, in rising order if the stream was,
  -- the same failure or end, and with the excluded ones as many objects as came in.
  pub filter_lem :
      (low : Option Key) (s : Stream)
      → Rising low (objects s)
      → let out = filter path_match config now rules s in
        All Passes (objects out)
        × Rising low (objects out)
        × (listing_failed out ≡ listing_failed s)
        × (length (objects out) + (excluded path_match config now rules s).0 ≡ length (objects s))
  unfolding filter excluded
  filter_lem low [] r = (tt, tt, refl, omega arith)
  filter_lem low (none ∷ s) r = (tt, tt, refl, omega arith)
  filter_lem low (some o ∷ s) r = elim (Bool-cases (filter_key path_match config now rules o)) [
    | inl e ↦
        let (passing, rising, failed, count) = filter_lem (some (key o)) s r.1 in
        rw e ((e, passing), (r.0, rising), failed, omega arith)
    | inr e ↦
        let (passing, rising, failed, count) = filter_lem low s (Rising-drop low o (objects s) r) in
        rw e (passing, rising, failed, omega arith)
  ]

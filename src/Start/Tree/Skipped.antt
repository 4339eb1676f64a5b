-- ===== src/Start/Tree/Skipped.antt =====
-- What a start key does to the directory that it lies in.
use my_sync.Common.{ℕ, ◌≡◌, refl, true, false, List, [], ◌∷◌, ◌++◌, arith, by_test}
use my_sync.Common.Key.{Key, key_lt, key_lt_irrefl}
use my_sync.Object.{Object, key}
use my_sync.Produce.Compare.{Env}
use my_sync.Start.Tree.{World, is_eligible, listed_in, child_prefixes}

before_below : (dir : Key) (c : ℕ) (rest : Key) → key_lt dir (dir ++ (c ∷ rest)) ≡ true
unfolding key_lt
before_below [] c rest = refl
before_below (a ∷ dir) c rest = ground (arith, before_below dir c rest)

module _ (w : World) (env : Env) (dir : Key) (bad : is_eligible w env dir ≡ false) where
  never_listed :
      (seen : List Key) (dirs : List Object)
      → listed_in dir (child_prefixes w env seen dirs) ≡ false
  unfolding child_prefixes
  never_listed seen [] = refl
  never_listed seen (d ∷ dirs) =
      by_test (λ ks. listed_in dir ks ≡ false) (listed_in (key d) seen)
        (λ _. never_listed (key d ∷ seen) dirs)
        (λ _.
          by_test (λ ks. listed_in dir ks ≡ false) (is_eligible w env (key d))
            (λ fine. ground (arith, fine, bad, never_listed (key d ∷ seen) dirs))
            (λ _. never_listed (key d ∷ seen) dirs))

-- Whatever the listings find: a directory in which `--start` lies gets no listing of its own from the
-- parallel listing, although the start key and others below the directory are to be synchronised.
pub child_prefixes-start_below :
    (w : World) (env : Env) (dir rest : Key) (c : ℕ) (seen : List Key) (dirs : List Object)
    → env.config.start ≡ dir ++ (c ∷ rest)
    → (listed_in dir (child_prefixes w env seen dirs) ≡ false)
      × (key_lt (dir ++ (c ∷ rest)) env.config.start ≡ false)
unfolding is_eligible
child_prefixes-start_below w env dir rest c seen dirs start = (
  never_listed w env dir (ground (arith, start, before_below dir c rest)) seen dirs,
  rw start (key_lt_irrefl (dir ++ (c ∷ rest))),
)

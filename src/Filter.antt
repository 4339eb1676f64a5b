-- ===== src/Filter.antt =====
-- `filterKey` and `filter` of pkg/sync/sync.go. A stream is the list of what a channel delivers
-- until it is closed; `none` is the `nil` by which a listing tells that it has failed.
pub mod Laws
use my_sync.Common.{
  ℕ, suc, ◌+◌, Bool, true, false, not, ◌&&◌, Option, none, some, List, [], ◌∷◌, ltb, ◌==◌,
  if◌then◌else◌,
}
use my_sync.Common.Int.{ℤ, pos, leb_ℤ, ◌+ℤ◌}
use my_sync.Common.Key.{Key}
use my_sync.Config.{Config, Rule}
use my_sync.Object.{Object, key, size, mtime, is_dir, is_symlink}
use my_sync.Rules.{match_full_path, match_leveled_path}

abbrev pub Stream : Type 0
Stream = List (Option Object)

-- The test is made only where the bound is set.
abbrev if_set : ℕ → Bool → Bool
if_set bound test = if bound == 0 then true else test

-- The size, age and time bounds of `filterKey`. A time is after `now - age` exactly when it and
-- the age together pass `now`, which is how it is written here.
unfoldable pub in_bounds : Config → ℕ → Object → Bool
in_bounds config now o =
    leb_ℤ config.min_size (size o)
    && (leb_ℤ (size o) config.max_size
        && (if_set config.max_age (ltb now (mtime o + config.max_age))
            && (if_set config.min_age (ltb (mtime o + config.min_age) now)
                && (if_set config.start_time (ltb config.start_time (mtime o))
                    && if_set config.end_time (ltb (mtime o) config.end_time)))))

module _ (path_match : Key → Key → Bool) where
  -- `filterKey`
  unfoldable pub filter_key : Config → ℕ → List Rule → Object → Bool
  filter_key config now rules o =
      (if not (is_dir o) && not (is_symlink o) then in_bounds config now o else true)
      && (if config.match_full_path
          then match_full_path path_match rules (key o)
          else match_leveled_path path_match rules (key o))

  -- What passes `filter`: it stops behind a failed listing.
  unfoldable pub filter : Config → ℕ → List Rule → Stream → Stream
  filter config now rules [] = []
  filter config now rules (none ∷ s) = none ∷ []
  filter config now rules (some o ∷ s) =
      let rest = filter config now rules s in
      if filter_key config now rules o then some o ∷ rest else rest

  -- The counters `excluded` and `excludedBytes` of a whole pass.
  unfoldable pub excluded : Config → ℕ → List Rule → Stream → ℕ × ℤ
  excluded config now rules [] = (0, pos 0)
  excluded config now rules (none ∷ s) = (0, pos 0)
  excluded config now rules (some o ∷ s) =
      let (n, bytes) = excluded config now rules s in
      if filter_key config now rules o then (n, bytes) else (suc n, bytes +ℤ size o)

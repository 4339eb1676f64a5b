-- ===== src/Rules.antt =====
-- The include and exclude rules of pkg/sync/sync.go, over the bytes of patterns and keys.
-- `path.Match` of Go's library, with an invalid pattern counted as no match, is the parameter
-- `path_match`.
pub mod Pruning
pub mod Fuel
use mathlib.Core.List.{reverse}
use my_sync.Common.{
  ℕ, zero, suc, ◌+◌, Bool, true, false, not, ◌&&◌, ◌||◌, Option, none, some, List, [], ◌∷◌, ◌++◌,
  map, length, take, drop, ◌==◌, if◌then◌else◌, is_empty,
}
use my_sync.Common.Key.{Key, key_eq}
use my_sync.Config.{Rule}

abbrev pub slash : ℕ
slash = b'/'

abbrev pub star : ℕ
star = b'*'

abbrev pub two_stars : Key
two_stars = star ∷ star ∷ []

abbrev pub three_stars : Key
three_stars = star ∷ star ∷ star ∷ []

abbrev cons_head : ℕ → List Key → List Key
cons_head c [] = (c ∷ []) ∷ []
cons_head c (w ∷ ws) = (c ∷ w) ∷ ws

-- `strings.Split(s, "/")`
unfoldable pub split : Key → List Key
split [] = [] ∷ []
split (c ∷ s) = let rest = split s in if c == slash then [] ∷ rest else cons_head c rest

-- `strings.Join(s, "/")`
unfoldable pub join : List Key → Key
join [] = []
join (w ∷ []) = w
join (w ∷ v ∷ ws) = w ++ (slash ∷ join (v ∷ ws))

abbrev starts_two_stars : Key → Bool
starts_two_stars (a ∷ b ∷ s) = a == star && b == star
starts_two_stars _ = false

-- `strings.Index(s, "**")`, with `none` for -1.
unfoldable pub index_two_stars : Key → Option ℕ
index_two_stars [] = none
index_two_stars (c ∷ s) =
    let rest = index_two_stars s in
    if starts_two_stars (c ∷ s) then some 0 else elim rest [ none ↦ none | some i ↦ some (suc i) ]

abbrev pub has_two_stars : Key → Bool
has_two_stars s = elim (index_two_stars s) [ none ↦ false | some i ↦ true ]

-- A test of some element.
abbrev pub any {ℓ} : {A : Type ℓ} → (A → Bool) → List A → Bool
any f [] = false
any f (x ∷ xs) = f x || any f xs

abbrev longer : Key → List Key × List Key → List Key × List Key
longer x (front, back) = (x ∷ front, back)

-- `(s[:i], s[i:])` for i from 0 to `len(s)`.
unfoldable pub splits : List Key → List (List Key × List Key)
splits [] = ([], []) ∷ []
splits (x ∷ s) = ([], x ∷ s) ∷ map (longer x) (splits s)

-- Those for i from 1 on.
abbrev later_splits : List Key → List (List Key × List Key)
later_splits [] = []
later_splits (x ∷ s) = map (longer x) (splits s)

-- Those for i below `len(s)`.
unfoldable pub proper_splits : List Key → List (List Key × List Key)
proper_splits [] = []
proper_splits (x ∷ s) = ([], x ∷ s) ∷ map (longer x) (proper_splits s)

-- The last element and what stands before it.
unfoldable pub unsnoc : List Key → Option (List Key × Key)
unsnoc [] = none
unsnoc (x ∷ s) = elim (unsnoc s) [
  | none ↦ some ([], x)
  | some (front, last) ↦ some (x ∷ front, last)
]

module _ (path_match : Key → Key → Bool) where
  -- The patterns of the loop in `matchTwoStar`: `p[:idx] + p[idx+1:]` against the whole of `s`,
  -- then `p[idx+1:]` against what follows each of its elements.
  unfoldable pub tail_matches : (Key → List Key → Bool) → Key → ℕ → List Key → Bool
  tail_matches again p idx s =
      again (take idx p ++ drop (suc idx) p) s
      || any (λ (front, back). again (drop (suc idx) p) back) (later_splits s)

  -- `matchTwoStar`. Each call shortens the pattern, so the fuel bounds its length.
  unfoldable pub match_two_star_fuel : ℕ → Key → List Key → Bool
  unfolding tail_matches
  match_two_star_fuel zero p s = false
  match_two_star_fuel (suc fuel) p [] = key_eq p (star ∷ [])
  match_two_star_fuel (suc fuel) p (x ∷ s) =
      let rest = λ (idx : ℕ). tail_matches (match_two_star_fuel fuel) p idx (x ∷ s) in
      elim (index_two_stars p) [
        | none ↦ path_match p (join (x ∷ s))
        | some idx ↦ path_match (take (suc idx) p) x && rest idx
      ]

  unfoldable pub match_two_star : Key → List Key → Bool
  unfolding match_two_star_fuel
  match_two_star p s = match_two_star_fuel (suc (length p)) p s

  -- `matchPrefix`
  unfoldable pub match_prefix : List Key → List Key → Bool
  match_prefix [] s = is_empty s
  match_prefix (first ∷ p) [] = false
  match_prefix (first ∷ p) (x ∷ s) =
      if key_eq first three_stars
      then true
      else if has_two_stars first
      then any (λ (front, back). match_two_star first front && match_prefix p back)
          (later_splits (x ∷ s))
      else path_match first x && match_prefix p s

  -- `matchSuffix`, over the pattern's elements from the last to the first.
  unfoldable pub match_suffix_from : List Key → List Key → Bool
  match_suffix_from [] s = true
  match_suffix_from (last ∷ p) [] = is_empty p && (key_eq last three_stars || key_eq last two_stars)
  match_suffix_from (last ∷ p) (x ∷ s) =
      if key_eq last three_stars
      then any (λ (front, back). match_suffix_from p front) (proper_splits (x ∷ s))
      else if has_two_stars last
      then any (λ (front, back). match_two_star last back && match_suffix_from p front)
          (proper_splits (x ∷ s))
      else elim (unsnoc (x ∷ s)) [
        | none ↦ false
        | some (front, end) ↦ path_match last end && match_suffix_from p front
      ]

  unfoldable pub match_suffix : List Key → List Key → Bool
  unfolding match_suffix_from
  match_suffix p s = match_suffix_from (reverse p) s

  abbrev starts_empty : List Key → Bool
  starts_empty [] = false
  starts_empty (w ∷ ws) = is_empty w

  -- A pattern that begins with a slash is anchored; its empty first element is dropped unless the
  -- key begins with a slash too.
  unfoldable pub matches : List Key → List Key → Bool
  matches p ps =
      if starts_empty p
      then match_prefix (if starts_empty ps then p else drop 1 p) ps
      else match_suffix p ps

  -- The first rule that matches decides; none lets the key through.
  unfoldable pub full_path_allowed : List Rule → List Key → Bool
  unfolding matches
  full_path_allowed [] ps = true
  full_path_allowed (r ∷ rules) ps =
      let rest = full_path_allowed rules ps in
      if matches (split r.pattern) ps then r.is_include else rest

  -- `matchFullPath`
  unfoldable pub match_full_path : List Rule → Key → Bool
  match_full_path rules key = full_path_allowed rules (split key)

  -- The pattern's last element is empty or `***`: it is for directories.
  abbrev for_directory : List Key → Bool
  for_directory p = elim (unsnoc p) [
    | none ↦ false
    | some (front, last) ↦ is_empty last || key_eq last three_stars
  ]

  -- One level: the path so far, which is a directory's unless it is the whole key.
  unfoldable pub level_allowed : List Rule → List Key → Bool → Bool
  unfolding matches
  level_allowed [] ps is_last = true
  level_allowed (r ∷ rules) ps is_last =
      let rest = level_allowed rules ps is_last in
      let p = split r.pattern in
      let path = if not is_last && for_directory p then ps ++ ([] ∷ []) else ps in
      if matches p path then r.is_include else rest

  -- The levels of `matchLeveledPath`: `ps` is the path so far, `parts` what follows.
  unfoldable pub levels_allowed : List Rule → List Key → List Key → Bool
  levels_allowed rules ps [] = true
  levels_allowed rules ps (part ∷ parts) =
      let here = ps ++ (part ∷ []) in
      let rest = levels_allowed rules here parts in
      if is_empty part
      then rest
      else if level_allowed rules here (is_empty parts)
      then rest
      else false

  -- `matchLeveledPath`
  unfoldable pub match_leveled_path : List Rule → Key → Bool
  match_leveled_path rules key = levels_allowed rules [] (split key)

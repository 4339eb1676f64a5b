-- ===== src/Rules/Pruning.antt =====
-- Pruning by common prefixes: what `startProducer` relies on when it drops a listed directory that
-- the rules exclude.
use my_sync.Common.{◌≡◌, refl, Bool, false, List, [], ◌∷◌, ◌++◌, arith, ◌==◌, Bool-cases, inl, inr}
use my_sync.Common.Key.{Key}
use my_sync.Config.{Rule}
use my_sync.Rules.{slash, split, levels_allowed, match_leveled_path}

split_cons : (s : Key) → (w : Key) × (ws : List Key) × (split s ≡ w ∷ ws)
unfolding split
split_cons [] = ([], [], refl)
split_cons (c ∷ s) = elim (Bool-cases (c == slash)) [
  | inl e ↦ ([], split s, rw e)
  | inr e ↦ let (w, ws, h) = split_cons s in (c ∷ w, ws, rw (e, h))
]

pub split-append : (d rest : Key) → split (d ++ (slash ∷ rest)) ≡ split d ++ split rest
unfolding split
split-append [] rest = refl
split-append (c ∷ d) rest = elim (Bool-cases (c == slash)) [
  | inl e ↦ rw (e, split-append d rest)
  | inr e ↦ let (w, ws, h) = split_cons d in rw (e, split-append d rest, h)
]

module _ (path_match : Key → Key → Bool) where
  levels_pruned :
      (rules : List Rule) (ps parts : List Key) (w : Key) (more : List Key)
      → levels_allowed path_match rules ps (parts ++ ([] ∷ [])) ≡ false
      → levels_allowed path_match rules ps (parts ++ (w ∷ more)) ≡ false
  unfolding levels_allowed
  levels_pruned rules ps [] w more h = cc
  levels_pruned rules ps (part ∷ []) w more h =
      ground (arith, levels_pruned rules (ps ++ (part ∷ [])) [] w more)
  levels_pruned rules ps (part ∷ next ∷ parts) w more h =
      ground (arith, levels_pruned rules (ps ++ (part ∷ [])) (next ∷ parts) w more)

  -- If the rules exclude a directory, a key that ends in a slash, then they exclude every key
  -- below it, whatever `path.Match` answers. So a pruned prefix hides no key that would be kept.
  pub match_leveled_path-prefix :
      (rules : List Rule) (dir rest : Key)
      → match_leveled_path path_match rules (dir ++ (slash ∷ [])) ≡ false
      → match_leveled_path path_match rules (dir ++ (slash ∷ rest)) ≡ false
  unfolding match_leveled_path split
  match_leveled_path-prefix rules dir rest h =
      let (w, more, e) = split_cons rest in
      rw (split-append dir rest, e)
        (levels_pruned rules [] (split dir) w more (rw split-append at h))

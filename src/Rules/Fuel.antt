-- ===== src/Rules/Fuel.antt =====
-- `matchTwoStar` ends: each call drops at least one byte of the pattern.
use my_sync.Common.{
  ℕ, zero, suc, ◌<◌, ◌≡◌, refl, ap, Bool, ◌&&◌, none, some, List, [], ◌∷◌, ◌++◌, arith, take, drop,
  length, Option-cases, Bool-cases, inl, inr,
}
use my_sync.Common.Key.{Key}
use my_sync.Rules.{
  join, index_two_stars, starts_two_stars, any, later_splits, tail_matches, match_two_star_fuel,
  match_two_star,
}

index-lt-length : (p : Key) (i : ℕ) → index_two_stars p ≡ some i → i < length p
unfolding index_two_stars
index-lt-length [] i h = cc
index-lt-length (c ∷ p) i h = elim (Bool-cases (starts_two_stars (c ∷ p))) [
  | inl e ↦ ground (arith, e, h)
  | inr e ↦ elim (Option-cases (index_two_stars p)) [
    | inl n ↦ ground (arith, e, n, h)
    | inr (j, n) ↦ ground (arith, e, n, h, index-lt-length p j n)
  ]
]

length-drop_lt : (i : ℕ) (p : Key) → i < length p → length (drop (suc i) p) < length p
length-drop_lt zero [] h = elim h [ ]
length-drop_lt zero (c ∷ p) h = omega arith
length-drop_lt (suc i) [] h = elim h [ ]
length-drop_lt (suc i) (c ∷ p) h = omega (arith, length-drop_lt i p (omega arith))

length-cut_lt : (i : ℕ) (p : Key) → i < length p → length (take i p ++ drop (suc i) p) < length p
length-cut_lt zero [] h = elim h [ ]
length-cut_lt zero (c ∷ p) h = omega arith
length-cut_lt (suc i) [] h = elim h [ ]
length-cut_lt (suc i) (c ∷ p) h = omega (arith, length-cut_lt i p (omega arith))

any_same {ℓ} :
    {A : Type ℓ} (f g : A → Bool) (xs : List A) → ((x : A) → f x ≡ g x) → any f xs ≡ any g xs
any_same f g [] h = refl
any_same f g (x ∷ xs) h = ground (arith, h x, any_same f g xs h)

module _ (path_match : Key → Key → Bool) where
  tail_same :
      (f g : Key → List Key → Bool) (p : Key) (i : ℕ) (s : List Key)
      → ((q : Key) (t : List Key) → length q < length p → f q t ≡ g q t)
      → i < length p
      → tail_matches path_match f p i s ≡ tail_matches path_match g p i s
  unfolding tail_matches
  tail_same f g p i s h below = ground (
    arith,
    h (take i p ++ drop (suc i) p) s (length-cut_lt i p below),
    any_same (λ (t : List Key × List Key). f (drop (suc i) p) t.1)
        (λ (t : List Key × List Key). g (drop (suc i) p) t.1) (later_splits s)
        (λ t. h (drop (suc i) p) t.1 (length-drop_lt i p below)),
  )

  two_star_fuel_same :
      (f g : ℕ) (p : Key) (s : List Key)
      → length p < f
      → length p < g
      → match_two_star_fuel path_match f p s ≡ match_two_star_fuel path_match g p s
  unfolding match_two_star_fuel
  two_star_fuel_same zero g p s h k = elim h [ ]
  two_star_fuel_same (suc f) zero p s h k = elim k [ ]
  two_star_fuel_same (suc f) (suc g) p [] h k = refl
  two_star_fuel_same (suc f) (suc g) p (x ∷ s) h k = elim (Option-cases (index_two_stars p)) [
    | inl e ↦ rw (match_two_star_fuel, e)
    | inr (i, e) ↦
        rw (match_two_star_fuel, e)
          (ap (λ b. path_match (take (suc i) p) x && b)
            (tail_same (match_two_star_fuel path_match f) (match_two_star_fuel path_match g) p i
              (x ∷ s) (λ q t l. two_star_fuel_same f g q t (omega arith) (omega arith))
              (index-lt-length p i e)))
  ]

  -- The recursion of `matchTwoStar` as the source has it, with no bound on its depth: on a
  -- non-empty path the pattern's first `**` decides, and every further match is again a
  -- `matchTwoStar`.
  pub match_two_star_lem :
      (p x : Key) (s : List Key)
      → match_two_star path_match p (x ∷ s) ≡ elim (index_two_stars p) [
        | none ↦ path_match p (join (x ∷ s))
        | some i ↦
            path_match (take (suc i) p) x
            && tail_matches path_match (match_two_star path_match) p i (x ∷ s)
      ]
  unfolding match_two_star
  match_two_star_lem p x s = elim (Option-cases (index_two_stars p)) [
    | inl e ↦ rw (match_two_star_fuel, e)
    | inr (i, e) ↦
        rw (match_two_star_fuel, e)
          (ap (λ b. path_match (take (suc i) p) x && b)
            (tail_same (match_two_star_fuel path_match (length p)) (match_two_star path_match) p i
              (x ∷ s)
              (λ q t l.
                two_star_fuel_same (length p) (suc (length q)) q t (omega arith) (omega arith))
              (index-lt-length p i e)))
  ]

-- ===== src/Common/Sizes.antt =====
-- How many entries a map has that holds each key once.
use mathlib.Core.Path.{◌≡◌, refl}
use mathlib.Core.Bool.{Bool, true, false, ◌||◌}
use mathlib.Core.List.{[], ◌∷◌}
use Prim.Native.Nat.{ℕ, ◌+◌}
use native.Mathlib.Omega.{arith}
use my_sync.Common.Tests.{if◌then◌else◌}
use my_sync.Common.Lists.{length}
use my_sync.Common.Map
use my_sync.Common.Map.{Map, Eq, ◌=?◌}

abbrev pub Distinct {ℓ κ} : {K : Type ℓ} {V : Type κ} ⦃e : Eq K⦄ → Map K V → Type 0
Distinct [] = Unit
Distinct ((k, v) ∷ m) = (Map.contains m k ≡ false) × Distinct m

abbrev pub one_if : Bool → ℕ
one_if true = 1
one_if false = 0

module _ {ℓ κ} {K : Type ℓ} {V : Type κ} ⦃e : Eq K⦄ where
  pub contains-delete :
      (m : Map K V) (k j : K)
      → Map.contains (Map.delete m k) j ≡ (if k =? j then false else Map.contains m j)
  contains-delete m k j = ground (arith, Map.get-delete m k j)

  pub contains-put :
      (m : Map K V) (k j : K) (v : V)
      → Map.contains (Map.put m k v) j ≡ ((k =? j) || Map.contains m j)
  contains-put m k j v = ground (arith, Map.get-put m k j v)

  pub Distinct-delete : (m : Map K V) (k : K) → Distinct m → Distinct (Map.delete m k)
  unfolding Map.delete
  Distinct-delete [] k h = tt
  Distinct-delete ((j, v) ∷ m) k h = ground (arith, Distinct-delete m k h.1, contains-delete m k j)

  pub Distinct-put : (m : Map K V) (k : K) (v : V) → Distinct m → Distinct (Map.put m k v)
  unfolding Map.put
  Distinct-put m k v h = (ground (arith, contains-delete m k k), Distinct-delete m k h)

  pub length-delete :
      (m : Map K V) (k : K)
      → Distinct m
      → length (Map.delete m k) + one_if (Map.contains m k) ≡ length m
  unfolding Map.delete Map.get
  length-delete [] k h = refl
  length-delete ((j, v) ∷ m) k h = ground (arith, length-delete m k h.1)

  pub length-put :
      (m : Map K V) (k : K) (v : V)
      → Distinct m
      → length (Map.put m k v) + one_if (Map.contains m k) ≡ length m + 1
  unfolding Map.put
  length-put m k v h = omega (arith, length-delete m k h)

  -- A map with no key has no entry.
  pub length-empty : (m : Map K V) → ((k : K) → Map.contains m k ≡ false) → length m ≡ 0
  unfolding Map.get
  length-empty [] h = refl
  length-empty ((j, v) ∷ m) h = absurd (ground (arith, h j))

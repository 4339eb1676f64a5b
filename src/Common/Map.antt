-- ===== src/Common/Map.antt =====
-- Go maps as association lists. A key is erased wherever it stands, so the laws hold of every
-- list, one with repeated keys too.
use mathlib.Core.Path.{◌≡◌, refl}
use Prim.Native.Nat.{ℕ}
use native.Mathlib.Decide.{ℕ_discrete}
use my_sync.Common.Key.{Key, Key-discrete}
use mathlib.Core.Logic.{ite}
use mathlib.Core.Bool.{Bool, true, false}
use mathlib.Core.Option.{Option, none, some}
use mathlib.Core.List.{List, [], ◌∷◌}
use native.Mathlib.Omega.{arith}
use my_sync.Common.Tests.{if◌then◌else◌}

-- Equality of keys, decided.
pub record Eq {ℓ} (K : Type ℓ) : Type ℓ where
  pub dec : Discrete K

infix 50 ◌=?◌
abbrev pub ◌=?◌ {ℓ} : {K : Type ℓ} ⦃e : Eq K⦄ → K → K → Bool
◌=?◌ ⦃e⦄ k j = ite (e.dec k j) true false

abbrev pub Map {ℓ κ} : Type ℓ → Type κ → Type (ℓ ⊔ κ)
Map K V = List (K × V)

module _ {ℓ κ} {K : Type ℓ} {V : Type κ} ⦃e : Eq K⦄ where
  -- `m[k]`
  unfoldable pub get : Map K V → K → Option V
  get [] k = none
  get ((j, v) ∷ m) k = if j =? k then some v else get m k

  -- `delete(m, k)`
  unfoldable pub delete : Map K V → K → Map K V
  delete [] k = []
  delete ((j, v) ∷ m) k = let rest = delete m k in if j =? k then rest else (j, v) ∷ rest

  -- `m[k] = v`
  unfoldable pub put : Map K V → K → V → Map K V
  unfolding delete
  put m k v = (k, v) ∷ delete m k

  pub get-delete : (m : Map K V) (k j : K) → get (delete m k) j ≡ (if k =? j then none else get m j)
  unfolding get delete
  get-delete [] k j = ground arith
  get-delete ((i, v) ∷ m) k j = ground (arith, get-delete m k j)

  pub get-put :
      (m : Map K V) (k j : K) (v : V) → get (put m k v) j ≡ (if k =? j then some v else get m j)
  unfolding get put
  get-put m k j v = ground (arith, get-delete m k j)

-- `_, ok := m[k]`
abbrev pub contains {ℓ κ} : {K : Type ℓ} {V : Type κ} ⦃e : Eq K⦄ → Map K V → K → Bool
contains m k = elim (get m k) [ none ↦ false | some v ↦ true ]

-- The keys of a map, each entry once.
abbrev pub keys {ℓ κ} : {K : Type ℓ} {V : Type κ} → Map K V → List K
keys [] = []
keys ((k, v) ∷ m) = k ∷ keys m

-- `maps.Copy(dst, src)`
unfoldable pub copy_into {ℓ κ} : {K : Type ℓ} {V : Type κ} ⦃e : Eq K⦄ → Map K V → Map K V → Map K V
unfolding put
copy_into dst [] = dst
copy_into dst ((k, v) ∷ src) = put (copy_into dst src) k v

pub get-copy_into {ℓ κ} :
    {K : Type ℓ} {V : Type κ} ⦃e : Eq K⦄ (dst src : Map K V) (k : K)
    → get (copy_into dst src) k ≡ elim (get src k) [ none ↦ get dst k | some v ↦ some v ]
unfolding copy_into get
get-copy_into dst [] k = refl
get-copy_into dst ((j, v) ∷ src) k =
    ground (arith, get-put (copy_into dst src) j k v, get-copy_into dst src k)

instance abbrev pub key_keys : Eq Key
key_keys = record { dec = Key-discrete }

instance abbrev pub number_keys : Eq ℕ
number_keys = record { dec = ℕ_discrete }

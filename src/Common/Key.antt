-- ===== src/Common/Key.antt =====
-- Object keys: Go strings, which compare byte by byte.
use Prim.Native.Nat.{ℕ}
use mathlib.Core.Path.{◌≡◌, refl}
use mathlib.Core.Logic.{ite, dite}
use mathlib.Core.Bool.{Bool, true, false}
use mathlib.Core.List.{List, [], ◌∷◌}
use native.Mathlib.Omega.{arith}
use native.Mathlib.Decide.{ℕ_discrete}
use my_sync.Common.Tests.{ltb, if◌then◌else◌}

abbrev pub Key : Type 0
Key = List ℕ

unfoldable pub Key-discrete : Discrete Key
unfolding ℕ_discrete
Key-discrete [] [] = yes refl
Key-discrete [] (b ∷ js) = no (λ e. cc)
Key-discrete (a ∷ ks) [] = no (λ e. cc)
Key-discrete (a ∷ ks) (b ∷ js) =
    dite (ℕ_discrete a b) (λ p. dite (Key-discrete ks js) (λ q. yes (cc)) (λ n. no (λ e. n (cc))))
      (λ n. no (λ e. n (cc)))

abbrev pub key_eq : Key → Key → Bool
key_eq k j = ite (Key-discrete k j) true false

-- `<` on Go strings.
unfoldable pub key_lt : Key → Key → Bool
key_lt [] [] = false
key_lt [] (b ∷ js) = true
key_lt (a ∷ ks) [] = false
key_lt (a ∷ ks) (b ∷ js) = if ltb a b then true else if ltb b a then false else key_lt ks js

pub key_lt_irrefl : (k : Key) → key_lt k k ≡ false
unfolding key_lt
key_lt_irrefl [] = refl
key_lt_irrefl (a ∷ ks) = ground (arith, key_lt_irrefl ks)

pub key_lt_asymm : (k j : Key) → key_lt k j ≡ true → key_lt j k ≡ false
unfolding key_lt
key_lt_asymm [] [] h = cc
key_lt_asymm [] (b ∷ js) h = refl
key_lt_asymm (a ∷ ks) [] h = cc
key_lt_asymm (a ∷ ks) (b ∷ js) h = ground (arith, key_lt_asymm ks js)

pub key_lt_trans : (i j k : Key) → key_lt i j ≡ true → key_lt j k ≡ true → key_lt i k ≡ true
unfolding key_lt
key_lt_trans [] [] k h g = cc
key_lt_trans [] (b ∷ js) [] h g = cc
key_lt_trans [] (b ∷ js) (c ∷ ls) h g = refl
key_lt_trans (a ∷ ks) [] k h g = cc
key_lt_trans (a ∷ ks) (b ∷ js) [] h g = cc
key_lt_trans (a ∷ ks) (b ∷ js) (c ∷ ls) h g = ground (arith, key_lt_trans ks js ls)

pub key_lt_total : (k j : Key) → key_lt k j ≡ false → key_lt j k ≡ false → k ≡ j
unfolding key_lt
key_lt_total [] [] h g = refl
key_lt_total [] (b ∷ js) h g = cc
key_lt_total (a ∷ ks) [] h g = cc
key_lt_total (a ∷ ks) (b ∷ js) h g = ground (arith, key_lt_total ks js)

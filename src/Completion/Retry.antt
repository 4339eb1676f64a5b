-- ===== src/Completion/Retry.antt =====
-- What `try` promises.
use my_sync.Common.{
  ℕ, zero, suc, ◌+◌, ◌≤◌, ◌<◌, ◌≡◌, ◌⊎◌, inl, inr, refl, true, false, Option, none, arith,
  Bool-cases, subst, ℕ_discrete,
}
use my_sync.Completion.{Failure, should_retry, try_from, try_calls}

-- After `r.0` calls, of which `n` are allowed, the loop ended with the last call's answer: the calls
-- before were all worth a retry, and this one is not unless it was the last allowed.
abbrev pub EndsRight : ℕ → ℕ → (ℕ → Option Failure) → ℕ × Option Failure → Type 0
EndsRight i n f r =
    (last : ℕ) × (r.0 ≡ suc last)
    × (i ≤ last)
    × (suc last ≤ n)
    × (r.1 ≡ f last)
    × ((j : ℕ) → i ≤ j → j < last → should_retry (f j) ≡ true)
    × ((should_retry (f last) ≡ false) ⊎ (suc last ≡ n))

all_before :
    (i last : ℕ) (f : ℕ → Option Failure)
    → should_retry (f i) ≡ true
    → ((j : ℕ) → suc i ≤ j → j < last → should_retry (f j) ≡ true)
    → (j : ℕ) → i ≤ j
    → j < last
    → should_retry (f j) ≡ true
all_before i last f e rest j l g = elim (ℕ_discrete i j) [
  | yes same ↦ subst (λ k. should_retry (f k) ≡ true) same e
  | no other ↦ rest j (ground (arith, l, other)) g
]

after_first :
    (i more : ℕ) (f : ℕ → Option Failure)
    → should_retry (f i) ≡ true
    → (r : ℕ × Option Failure) → EndsRight (suc i) (suc i + suc more) f r
    → EndsRight i (i + suc (suc more)) f r
after_first i more f e r (last, calls, low, high, answer, all, end) = (
  last,
  calls,
  omega (arith, low),
  omega (arith, high),
  answer,
  all_before i last f e all,
  ground (arith, end),
)

try_from-EndsRight :
    (i more : ℕ) (before : Option Failure) (f : ℕ → Option Failure)
    → EndsRight i (i + suc more) f (try_from i (suc more) before f)
unfolding try_from
try_from-EndsRight i zero before f = elim (Bool-cases (should_retry (f i))) [
  | inl e ↦ rw e (
    i,
    refl,
    omega arith,
    omega arith,
    refl,
    (λ j l g. absurd (omega (arith, l, g))),
    inr (omega arith),
  )
  | inr e ↦
      rw e (i, refl, omega arith, omega arith, refl, (λ j l g. absurd (omega (arith, l, g))), inl e)
]
try_from-EndsRight i (suc more) before f = elim (Bool-cases (should_retry (f i))) [
  | inl e ↦ rw e (
      after_first i more f e (try_from (suc i) (suc more) (f i) f)
        (try_from-EndsRight (suc i) more (f i) f))
  | inr e ↦
      rw e (i, refl, omega arith, omega arith, refl, (λ j l g. absurd (omega (arith, l, g))), inl e)
]

-- A call is repeated while its error is worth a retry, and no more than `n` times, which is at least
-- one. The result is the last call's answer; the answers before were all worth a retry, and
-- the last one is not, unless the calls are used up.
pub try_calls-EndsRight : (n : ℕ) (f : ℕ → Option Failure) → 1 ≤ n → EndsRight 0 n f (try_calls n f)
unfolding try_calls
try_calls-EndsRight zero f h = absurd (omega (arith, h))
try_calls-EndsRight (suc n) f h =
    subst (λ k. EndsRight 0 k f (try_from 0 (suc n) none f)) no_more (try_from-EndsRight 0 n none f)
  where
    no_more : 0 + suc n ≡ suc n
    no_more = omega arith

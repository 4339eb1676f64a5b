-- ===== src/Limit/Ledger.antt =====
-- The account of the limiter, and what it asks for.
use my_sync.Common.{
  ℕ, ◌+◌, ◌≤◌, ◌≡◌, ◌⊎◌, refl, ap, sym, subst, ◌∙◌, true, ◌&&◌, ◌||◌, Option, none, some, List, [],
  ◌∷◌, ◌++◌, is_empty, ltb, if◌then◌else◌, arith, All, All-append, by_test, Bool-cases, inl, inr,
}
use mathlib.Core.List.{append_assoc}
use my_sync.Common.Int.{
  ℤ, pos, pos_part, neg_part, ◌+ℤ◌, ◌-ℤ◌, ◌≤ℤ◌, ltb_ℤ, leb_ℤ, eqb_ℤ, +ℤ_parts, -ℤ_parts,
  eq_of_parts,
}
use my_sync.Limit.{
  Limiter, new_limiter, begin_wait, ten_times, request_size, serve, credit, take_turn, end_request,
  check_balance, most_payback, Happening, waits, turns, answers, checks, happen, happen_all,
}

abbrev pub total : List ℤ → ℤ
total [] = pos 0
total (n ∷ ns) = n +ℤ total ns

abbrev pub Positive : ℤ → Type 0
Positive n = pos 1 ≤ℤ n

ruleset sums = (arith, +ℤ_parts, -ℤ_parts, eq_of_parts)

total-append : (ns : List ℤ) (n : ℤ) → total (ns ++ (n ∷ [])) ≡ total ns +ℤ n
total-append [] n = eq_of_parts (n +ℤ pos 0) (pos 0 +ℤ n) (omega sums)
total-append (m ∷ ns) n =
    eq_of_parts _ _ (omega (sums, ap pos_part (total-append ns n), ap neg_part (total-append ns n)))

pub record Balanced (l : Limiter) : Type 0 where
  pub account : l.balance +ℤ l.let_through +ℤ l.paid_back ≡ l.granted
  pub needed : l.need ≡ total l.waiters
  pub in_turn : l.came ≡ l.served ++ l.waiters
  pub wanting : All Positive l.waiters

balance_kept : (a b c g x : ℤ) → a +ℤ b +ℤ c ≡ g → (a -ℤ x) +ℤ (b +ℤ x) +ℤ c ≡ g
balance_kept a b c g x h = eq_of_parts _ _ (omega (sums, ap pos_part h, ap neg_part h))

without_first : (n t : ℤ) → (n +ℤ t) -ℤ n ≡ t
without_first n t = eq_of_parts _ _ (omega sums)

credited : (a b c g x : ℤ) → a +ℤ b +ℤ c ≡ g → (a +ℤ x) +ℤ b +ℤ c ≡ g +ℤ x
credited a b c g x h = eq_of_parts _ _ (omega (sums, ap pos_part h, ap neg_part h))

paid : (a b c g x : ℤ) → a +ℤ b +ℤ c ≡ g → (a -ℤ x) +ℤ b +ℤ (c +ℤ x) ≡ g
paid a b c g x h = eq_of_parts _ _ (omega (sums, ap pos_part h, ap neg_part h))

module _ {l : Limiter} (good : Balanced l) where
  begin_wait-Balanced : (bytes : ℤ) → Balanced (begin_wait l bytes)
  unfolding begin_wait
  begin_wait-Balanced bytes =
      by_test Balanced (leb_ℤ bytes (pos 0) || (leb_ℤ bytes l.balance && is_empty l.waiters))
        (λ through. record {
          account = balance_kept l.balance l.let_through l.paid_back l.granted bytes good.account;
          needed = good.needed;
          in_turn = good.in_turn;
          wanting = good.wanting;
        })
        (λ stopped. record {
          account = good.account;
          needed = ap (λ n. n +ℤ bytes) good.needed ∙ sym (total-append l.waiters bytes);
          in_turn =
              ap (λ ns. ns ++ (bytes ∷ [])) good.in_turn
              ∙ append_assoc l.served l.waiters (bytes ∷ []);
          wanting =
              All-append Positive l.waiters (bytes ∷ []) good.wanting (ground (arith, stopped), tt);
        })

  serve-Balanced :
      (bytes : ℤ) (rest : List ℤ) → l.waiters ≡ bytes ∷ rest → Balanced (serve l bytes rest)
  unfolding serve
  serve-Balanced bytes rest e = record {
    account = balance_kept l.balance l.let_through l.paid_back l.granted bytes good.account;
    needed = ap (λ n. n -ℤ bytes) (good.needed ∙ ap total e) ∙ without_first bytes (total rest);
    in_turn =
        good.in_turn ∙ ap (λ ns. l.served ++ ns) e ∙ sym (append_assoc l.served (bytes ∷ []) rest);
    wanting = (subst (All Positive) e good.wanting).1;
  }

  asking-Balanced : Balanced (record l { asking = true })
  asking-Balanced = record {
    account = good.account;
    needed = good.needed;
    in_turn = good.in_turn;
    wanting = good.wanting;
  }

  credit-Balanced : (answer : Option (ℤ × ℕ)) → Balanced (credit l answer)
  unfolding credit
  credit-Balanced none = good
  credit-Balanced (some (granted, due)) = record {
    account = credited l.balance l.let_through l.paid_back l.granted granted good.account;
    needed = good.needed;
    in_turn = good.in_turn;
    wanting = good.wanting;
  }

  pay-Balanced :
      (n : ℤ) → Balanced (record l { balance = l.balance -ℤ n; paid_back = l.paid_back +ℤ n })
  pay-Balanced n = record {
    account = paid l.balance l.let_through l.paid_back l.granted n good.account;
    needed = good.needed;
    in_turn = good.in_turn;
    wanting = good.wanting;
  }

  turn-Balanced : (ns : List ℤ) → l.waiters ≡ ns → Balanced (take_turn l ns)
  unfolding take_turn
  turn-Balanced [] e = good
  turn-Balanced (bytes ∷ rest) e =
      by_test Balanced l.asking (λ _. good)
        (λ _.
          by_test Balanced (ltb_ℤ l.balance bytes) (λ _. asking-Balanced)
            (λ _. serve-Balanced bytes rest e))

credit-waiters : (l : Limiter) (answer : Option (ℤ × ℕ)) → (credit l answer).waiters ≡ l.waiters
unfolding credit
credit-waiters l none = refl
credit-waiters l (some (granted, due)) = refl

answer-Balanced :
    (l : Limiter) (answer : Option (ℤ × ℕ)) (ns : List ℤ)
    → Balanced l
    → l.waiters ≡ ns
    → Balanced (end_request l ns answer)
unfolding end_request
answer-Balanced l answer [] good e = good
answer-Balanced l answer (bytes ∷ rest) good e =
    by_test Balanced l.asking
      (λ _. serve-Balanced (credit-Balanced good answer) bytes rest (credit-waiters l answer ∙ e))
      (λ _. good)

happen-Balanced : (l : Limiter) (e : Happening) → Balanced l → Balanced (happen l e)
unfolding happen check_balance
happen-Balanced l (waits bytes) good = begin_wait-Balanced good bytes
happen-Balanced l turns good = turn-Balanced good l.waiters refl
happen-Balanced l (answers answer) good = answer-Balanced l answer l.waiters good refl
happen-Balanced l (checks now) good =
    by_test Balanced (ltb_ℤ (pos 0) l.balance && (eqb_ℤ l.need (pos 0) && ltb l.due now))
      (λ _. pay-Balanced good (if ltb_ℤ most_payback l.balance then most_payback else l.balance))
      (λ _. good)

pub happen_all-Balanced :
    (l : Limiter) (events : List Happening) → Balanced l → Balanced (happen_all l events)
unfolding happen_all
happen_all-Balanced l [] good = good
happen_all-Balanced l (e ∷ events) good =
    happen_all-Balanced (happen l e) events (happen-Balanced l e good)

new_limiter-Balanced : Balanced new_limiter
unfolding ◌+ℤ◌
new_limiter-Balanced = record { account = refl; needed = refl; in_turn = refl; wanting = tt }

total-nonneg : (ns : List ℤ) → All Positive ns → pos 0 ≤ℤ total ns
total-nonneg [] h = omega arith
total-nonneg (n ∷ ns) h = omega (sums, h.0, total-nonneg ns h.1)

none_wait : (ns : List ℤ) → All Positive ns → total ns ≡ pos 0 → ns ≡ []
none_wait [] h e = refl
none_wait (n ∷ ns) h e =
    absurd (omega (sums, h.0, total-nonneg ns h.1, ap pos_part e, ap neg_part e))

-- What happens when the first caller finds too little credit.
abbrev pub AsksWell : Limiter → List ℤ → Type 0
AsksWell l [] = Unit
AsksWell l (bytes ∷ rest) =
    ltb_ℤ l.balance bytes ≡ true
    → (pos 1 ≤ℤ request_size l bytes)
      × (request_size l bytes ≤ℤ ten_times bytes)
      × (request_size l bytes ≤ℤ (total (bytes ∷ rest) -ℤ l.balance))
      × ((bytes ≤ℤ (l.balance +ℤ request_size l bytes)) ⊎ (request_size l bytes ≡ ten_times bytes))

module _ (l : Limiter) (bytes : ℤ) (rest : List ℤ) (positive : All Positive (bytes ∷ rest))
    (needed : l.need ≡ total (bytes ∷ rest)) (short : ltb_ℤ l.balance bytes ≡ true) where
  abbrev wanted : ℤ
  wanted = total (bytes ∷ rest) -ℤ l.balance

  bytes_wanted : (pos 1 ≤ℤ wanted) × (bytes ≤ℤ (l.balance +ℤ wanted))
  bytes_wanted = (
    omega (sums, total-nonneg rest positive.1, positive.0, less),
    omega (sums, total-nonneg rest positive.1, less),
  )
    where
      less : pos_part l.balance + neg_part bytes + 1 ≤ pos_part bytes + neg_part l.balance
      less = ground (arith, short)

  asks_enough : AsksWell l (bytes ∷ rest)
  unfolding request_size
  asks_enough _ = rw needed (elim (Bool-cases (leb_ℤ (ten_times bytes) wanted)) [
    | inl cut ↦ rw cut (ground (arith, positive.0), omega arith, ground (arith, cut), inr refl)
    | inr all ↦ rw all (bytes_wanted.0, ground (arith, all), omega arith, inl bytes_wanted.1)
  ])

asks_well : (l : Limiter) (ns : List ℤ) → l.waiters ≡ ns → Balanced l → AsksWell l ns
asks_well l [] e good = tt
asks_well l (bytes ∷ rest) e good = λ short.
    asks_enough l bytes rest (subst (All Positive) e good.wanting) (good.needed ∙ ap total e) short
      short

-- In whatever order callers wait, take their turns, get answers or errors, and the balance is
-- checked: the balance, what was let through and what was paid back make what the server granted.
-- `need` is what the waiting callers ask for together, so that nothing is paid back while one of
-- them waits. They go on in the order in which they came. Where the first of them finds too little
-- credit, its request is positive, at most ten times its own bytes and at most what all of them
-- lack together, and it is enough for its own bytes unless it is cut at ten times.
pub happen_all-account :
    (events : List Happening)
    → let l = happen_all new_limiter events in
      (l.balance +ℤ l.let_through +ℤ l.paid_back ≡ l.granted)
      × (l.need ≡ total l.waiters)
      × (l.need ≡ pos 0 → l.waiters ≡ [])
      × (l.came ≡ l.served ++ l.waiters)
      × AsksWell l l.waiters
happen_all-account events =
    let good : Balanced (happen_all new_limiter events) =
      happen_all-Balanced new_limiter events new_limiter-Balanced in
    (
      good.account,
      good.needed,
      λ zero_need.
          none_wait (happen_all new_limiter events).waiters good.wanting
            (sym good.needed ∙ zero_need),
      good.in_turn,
      asks_well (happen_all new_limiter events) (happen_all new_limiter events).waiters refl good,
    )

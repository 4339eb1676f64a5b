-- ===== src/Examples/Credits.antt =====
-- Two callers that wait for credit: the first asks for both.
use my_sync.Common.{◌≡◌, ◌++◌, some, List, [], ◌∷◌}
use my_sync.Common.Int.{pos, ◌+ℤ◌}
use my_sync.Limit.{new_limiter, Happening, waits, turns, answers, checks, happen_all}
use my_sync.Limit.Ledger.{total, AsksWell, happen_all-account}

abbrev two_callers : List Happening
two_callers =
    waits (pos 5)
    ∷ turns
    ∷ waits (pos 7)
    ∷ answers (some (pos 20, 9))
    ∷ turns
    ∷ checks 10
    ∷ waits (pos 3)
    ∷ turns
    ∷ []

happen_all-account_example :
    let l = happen_all new_limiter two_callers in
    (l.balance +ℤ l.let_through +ℤ l.paid_back ≡ l.granted)
    × (l.need ≡ total l.waiters)
    × (l.need ≡ pos 0 → l.waiters ≡ [])
    × (l.came ≡ l.served ++ l.waiters)
    × AsksWell l l.waiters
happen_all-account_example = happen_all-account two_callers

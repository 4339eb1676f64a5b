-- ===== src/Limit.antt =====
-- `globalLimit` (pkg/sync/sync.go): credit for bytes, which a server grants. What runs under the lock
-- is one step; `wait` gives the lock back while it waits for its turn and while it asks the server.
pub mod Ledger
use my_sync.Common.{
  ℕ, ◌+◌, ◌*◌, Bool, true, false, not, ◌&&◌, ◌||◌, Option, none, some, List, [], ◌∷◌, ◌++◌,
  is_empty, ltb, if◌then◌else◌,
}
use my_sync.Common.Int.{ℤ, pos, negsuc, pos_part, neg_part, sub_ℕ, ◌+ℤ◌, ◌-ℤ◌, ltb_ℤ, leb_ℤ, eqb_ℤ}

-- `waiters` are the bytes that each caller asks for, in the order of `waiters` in the code; `asking`
-- is whether the first of them has given the lock back for its request. The rest is the account of
-- what happened: the bytes of the calls that had to wait, those of them that went on, and the sums
-- of what was granted, let through and paid back.
pub record Limiter : Type 0 where
  pub balance : ℤ
  pub due : ℕ
  pub need : ℤ
  pub waiters : List ℤ
  pub asking : Bool
  pub came : List ℤ
  pub served : List ℤ
  pub granted : ℤ
  pub let_through : ℤ
  pub paid_back : ℤ

abbrev pub new_limiter : Limiter
new_limiter = record {
  balance = pos 0;
  due = 0;
  need = pos 0;
  waiters = [];
  asking = false;
  came = [];
  served = [];
  granted = pos 0;
  let_through = pos 0;
  paid_back = pos 0;
}

-- `wait`, up to the wait for its turn.
unfoldable pub begin_wait : Limiter → ℤ → Limiter
begin_wait l bytes =
    if leb_ℤ bytes (pos 0) || (leb_ℤ bytes l.balance && is_empty l.waiters)
    then record l { balance = l.balance -ℤ bytes; let_through = l.let_through +ℤ bytes }
    else record l {
      need = l.need +ℤ bytes;
      waiters = l.waiters ++ (bytes ∷ []);
      came = l.came ++ (bytes ∷ []);
    }

abbrev pub ten_times : ℤ → ℤ
ten_times n = sub_ℕ (10 * pos_part n) (10 * neg_part n)

-- What the first caller asks the server for: credit for the others too, but not too much.
unfoldable pub request_size : Limiter → ℤ → ℤ
request_size l bytes =
    let wanted = l.need -ℤ l.balance in
    if leb_ℤ (ten_times bytes) wanted then ten_times bytes else wanted

-- The first caller goes on.
unfoldable pub serve : Limiter → ℤ → List ℤ → Limiter
serve l bytes rest = record l {
  balance = l.balance -ℤ bytes;
  need = l.need -ℤ bytes;
  waiters = rest;
  asking = false;
  served = l.served ++ (bytes ∷ []);
  let_through = l.let_through +ℤ bytes;
}

-- The answer of the server, the credit and the time when it expires; `none` is an error.
unfoldable pub credit : Limiter → Option (ℤ × ℕ) → Limiter
credit l none = l
credit l (some (granted, due)) = record l {
  balance = l.balance +ℤ granted;
  due = due;
  granted = l.granted +ℤ granted;
}

-- The turn of the first caller: it goes on where there is credit, and asks the server otherwise.
unfoldable pub take_turn : Limiter → List ℤ → Limiter
unfolding serve
take_turn l [] = l
take_turn l (bytes ∷ rest) =
    if l.asking
    then l
    else if ltb_ℤ l.balance bytes
    then record l { asking = true }
    else serve l bytes rest

unfoldable pub end_request : Limiter → List ℤ → Option (ℤ × ℕ) → Limiter
unfolding serve credit
end_request l [] answer = l
end_request l (bytes ∷ rest) answer = if l.asking then serve (credit l answer) bytes rest else l

abbrev pub most_payback : ℤ
most_payback = pos 1_073_741_824

-- `checkBalance` at a time: credit that is not used is paid back. What the server answers is ignored.
unfoldable pub check_balance : Limiter → ℕ → Limiter
check_balance l now =
    if ltb_ℤ (pos 0) l.balance && (eqb_ℤ l.need (pos 0) && ltb l.due now)
    then (let payback = if ltb_ℤ most_payback l.balance then most_payback else l.balance in
        record l { balance = l.balance -ℤ payback; paid_back = l.paid_back +ℤ payback })
    else l

-- What can happen, in any order.
pub data Happening : Type 0 where
  waits : ℤ → Happening
  turns : Happening
  answers : Option (ℤ × ℕ) → Happening
  checks : ℕ → Happening

unfoldable pub happen : Limiter → Happening → Limiter
unfolding begin_wait take_turn end_request check_balance
happen l (waits bytes) = begin_wait l bytes
happen l turns = take_turn l l.waiters
happen l (answers answer) = end_request l l.waiters answer
happen l (checks now) = check_balance l now

unfoldable pub happen_all : Limiter → List Happening → Limiter
unfolding happen
happen_all l [] = l
happen_all l (e ∷ events) = happen_all (happen l e) events

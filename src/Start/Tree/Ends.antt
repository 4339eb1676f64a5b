-- ===== src/Start/Tree/Ends.antt =====
-- Without a checkpoint the listing of a tree of prefixes ends.
use my_sync.Common.{ℕ, ◌≡◌, none}
use my_sync.Common.Key.{Key}
use my_sync.Object.{Object}
use my_sync.Produce.Compare.{Env}
use my_sync.Produce.Effects.{State}
use my_sync.Start.Tree.{World, at_prefix, Outcome, returned, crashed, exhausted, start_producer}

-- The call is over, and there is still no checkpoint where it returns.
abbrev pub IsOver : Outcome → Type 0
IsOver (returned err st) = st.manager ≡ none
IsOver (crashed st) = Unit
IsOver exhausted = ⊥

abbrev below : ℕ → World → Env → Key → ℕ → State → Outcome
below fuel w env k d s = start_producer fuel w (at_prefix env k) d s

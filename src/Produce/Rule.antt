-- ===== src/Produce/Rule.antt =====
-- The invariant rule of `produce`: one assertion for the state between two source objects, one for
-- the state in which an object is claimed and not yet dealt with. `Met` is what is known of each
-- object of the listings.
use my_sync.Common.{
  ◌≡◌, refl, ◌⊎◌, inl, inr, Option, none, some, List, [], ◌∷◌, Bool-cases, All, by_test,
}
use my_sync.Common.Int.{ℤ}
use my_sync.Common.Key.{key_lt, key_eq}
use my_sync.Object.{Object, key}
use my_sync.Gate.{SyncRecord}
use my_sync.Filter.{Stream}
use my_sync.Filter.Laws.{objects}
use my_sync.Produce.Compare.{Env, Verdict}
use my_sync.Produce.Effects.{State, perform, note_last_listed, list_ended}
use my_sync.Produce.Extra.{handle_extra}
use my_sync.Produce.Alignment.{waiting}
use my_sync.Produce.Align.{Aligned, aligned, align_stopped, align_failed, advance, align, drain}
use my_sync.Produce.{
  Gated, Ended, finished, stopped, failed, panicked, ignored_dir, claim_limit, claimed, verdict_of,
  after_same, finish_dst, ended_by, merge, Turn, go, halt, carried, decide, turn_claimed, turn,
  produce,
}

-- The steps of the merge keep `Between` and `Claimed`.
pub record Keeps (env : Env) (Met : Object → Type 0) (Between Claimed : State → Type 0)
    : Type 0 where
  pub noted : (o : Object) (st : State) → Between st → Between (note_last_listed env o st)
  pub claims :
      (o : Object) (left : ℤ) (st : State)
      → claim_limit st.limit ≡ some left
      → Between st
      → Claimed (claimed o left st)
  pub extra_claimed :
      (d : Object) (st : State) → Met d → Claimed st → Claimed (handle_extra env d st).1
  pub extra_between :
      (d : Object) (st : State) → Met d → Between st → Between (handle_extra env d st).1
  pub performs :
      (o : Object) (v : Verdict) (st st' : State)
      → Met o
      → perform env o v st ≡ some st'
      → Claimed st
      → Between st'
  pub ends : (st : State) → Between st → Between (list_ended env st)
  pub ends_claimed : (st : State) → Claimed st → Claimed (list_ended env st)

-- What holds of the state at each end.
abbrev pub EndsIn : (State → Type 0) → (State → Type 0) → Ended → Type 0
EndsIn Between Claimed (finished st) = Between st
EndsIn Between Claimed (stopped st) = Between st ⊎ Claimed st
EndsIn Between Claimed (failed st) = Between st ⊎ Claimed st
EndsIn Between Claimed (panicked st) = Claimed st

abbrev pub MetIf : (Object → Type 0) → Option Object → Type 0
MetIf Met none = Unit
MetIf Met (some o) = Met o

-- Of every object something trivial is known.
pub any_source : (src : List Gated) → All (λ (g : Gated). MetIf (λ d. Unit {0}) g.obj) src
any_source [] = tt
any_source (g ∷ src) = (of_object g.obj, any_source src)
  where
    of_object : (o : Option Object) → MetIf (λ d. Unit {0}) o
    of_object none = tt
    of_object (some o) = tt

pub any_met : (os : List Object) → All (λ (d : Object). Unit {0}) os
any_met [] = tt
any_met (d ∷ os) = (tt, any_met os)

module _ (env : Env) (Met : Object → Type 0) (Between Claimed : State → Type 0)
    (keeps : Keeps env Met Between Claimed) where
  abbrev AlignedIn : Aligned → Type 0
  AlignedIn (aligned d dst st) = Claimed st × All Met (waiting d dst)
  AlignedIn (align_stopped st) = Claimed st
  AlignedIn (align_failed st) = Claimed st

  advance-In :
      (o : Object) (dst : Stream) (st : State)
      → All Met (objects dst)
      → Claimed st
      → AlignedIn (advance env o dst st)
  unfolding advance
  advance-In o [] st met h = (h, tt)
  advance-In o (none ∷ dst) st met h = h
  advance-In o (some d ∷ dst) st met h =
      let after = handle_extra env d st in
      let h' : Claimed after.1 = keeps.extra_claimed d st met.0 h in
      elim (Bool-cases (key_lt (key d) (key o))) [
        | inr e ↦ rw e (h, met)
        | inl e ↦ elim (Bool-cases after.0) [
          | inl stop ↦ rw (e, stop) h'
          | inr on ↦ rw (e, on) (advance-In o dst after.1 met.1 h')
        ]
      ]

  align-In :
      (o : Object) (d : Option Object) (dst : Stream) (st : State)
      → All Met (waiting d dst)
      → Claimed st
      → AlignedIn (align env o d dst st)
  unfolding align
  align-In o none dst st met h = advance-In o dst st met h
  align-In o (some d) dst st met h =
      let after = handle_extra env d st in
      let h' : Claimed after.1 = keeps.extra_claimed d st met.0 h in
      elim (Bool-cases (key_lt (key d) (key o))) [
        | inr e ↦ rw e (h, met)
        | inl e ↦ elim (Bool-cases after.0) [
          | inl stop ↦ rw (e, stop) h'
          | inr on ↦ rw (e, on) (advance-In o dst after.1 met.1 h')
        ]
      ]

  drain-In :
      (dst : Stream) (st : State)
      → All Met (objects dst)
      → Between st
      → EndsIn Between Claimed (ended_by (drain env dst st))
  unfolding drain
  drain-In [] st met h = h
  drain-In (none ∷ dst) st met h = inl h
  drain-In (some d ∷ dst) st met h =
      let after = handle_extra env d st in
      let h' : Between after.1 = keeps.extra_between d st met.0 h in
      elim (Bool-cases after.0) [
        | inl stop ↦ rw stop (inl h')
        | inr on ↦ rw on (drain-In dst after.1 met.1 h')
      ]

  finish_dst-In :
      (d : Option Object) (dst : Stream) (st : State)
      → All Met (waiting d dst)
      → Between st
      → EndsIn Between Claimed (finish_dst env d dst st)
  unfolding finish_dst
  finish_dst-In none dst st met h = elim (Bool-cases env.config.delete_dst) [
    | inr e ↦ simp e h
    | inl e ↦ simp e (drain-In dst st met h)
  ]
  finish_dst-In (some d) dst st met h = elim (Bool-cases env.config.delete_dst) [
    | inr e ↦ simp e h
    | inl e ↦ simp e (drain-In (some d ∷ dst) st met h)
  ]

  abbrev TurnIn : Turn → Type 0
  TurnIn (halt ended) = EndsIn Between Claimed ended
  TurnIn (go d dst st) = Between st × All Met (waiting d dst)

  after_same-Met :
      (o : Object) (d : Option Object) (dst : Stream)
      → All Met (waiting d dst)
      → All Met (waiting (after_same o d) dst)
  after_same-Met o none dst met = met
  after_same-Met o (some d) dst met =
      by_test (λ d. All Met (waiting d dst)) (key_eq (key o) (key d)) (λ _. met.1) (λ _. met)

  carried-In :
      (o : Object) (v : Verdict) (d : Option Object) (dst : Stream) (st : State)
      (after : Option State)
      → perform env o v st ≡ after
      → Met o
      → All Met (waiting d dst)
      → Claimed st
      → TurnIn (carried o d dst st after)
  unfolding carried
  carried-In o v d dst st none e here met h = h
  carried-In o v d dst st (some st') e here met h =
      (keeps.performs o v st st' here e h, after_same-Met o d dst met)

  decide-In :
      (o : Object) (rec : Option SyncRecord) (r : Aligned)
      → Met o
      → AlignedIn r
      → TurnIn (decide env o rec r)
  unfolding decide
  decide-In o rec (aligned d dst st) here (h, met) =
      carried-In o (verdict_of env o rec d) d dst st _ refl here met h
  decide-In o rec (align_stopped st) here h = inr h
  decide-In o rec (align_failed st) here h = inr h

  turn_claimed-In :
      (o : Object) (rec : Option SyncRecord) (d : Option Object) (dst : Stream) (st : State)
      (left : Option ℤ)
      → claim_limit st.limit ≡ left
      → Met o
      → All Met (waiting d dst)
      → Between st
      → TurnIn (turn_claimed env o rec d dst st left)
  unfolding turn_claimed
  turn_claimed-In o rec d dst st none e here met h = inl h
  turn_claimed-In o rec d dst st (some left) e here met h =
      decide-In o rec (align env o d dst (claimed o left st)) here
        (align-In o d dst (claimed o left st) met (keeps.claims o left st e h))

  turn-In :
      (obj : Option Object) (rec : Option SyncRecord) (d : Option Object) (dst : Stream)
      (st : State)
      → MetIf Met obj
      → All Met (waiting d dst)
      → Between st
      → TurnIn (turn env obj rec d dst st)
  unfolding turn
  turn-In none rec d dst st here met h = inl h
  turn-In (some o) rec d dst st here met h = elim (Bool-cases (ignored_dir env o)) [
    | inl e ↦ rw e (keeps.noted o st h, met)
    | inr e ↦ rw e (turn_claimed-In o rec d dst st (claim_limit st.limit) refl here met h)
  ]

  continued-In :
      (t : Turn) (next : Option Object → Stream → State → Ended)
      → ((d : Option Object) (dst : Stream) (st : State)
          → All Met (waiting d dst)
          → Between st
          → EndsIn Between Claimed (next d dst st))
      → TurnIn t
      → EndsIn Between Claimed (elim t [ halt ended ↦ ended | go d dst st ↦ next d dst st ])
  continued-In (halt ended) next rest h = h
  continued-In (go d dst st) next rest (h, met) = rest d dst st met h

  merge-In :
      (src : List Gated) (d : Option Object) (dst : Stream) (st : State)
      → All (λ (g : Gated). MetIf Met g.obj) src
      → All Met (waiting d dst)
      → Between st
      → EndsIn Between Claimed (merge env src d dst st)
  unfolding merge
  merge-In [] d dst st seen met h = finish_dst-In d dst st met h
  merge-In (g ∷ src) d dst st seen met h =
      continued-In (turn env g.obj g.rec d dst st) (merge env src)
        (λ d dst st. merge-In src d dst st seen.1) (turn-In g.obj g.rec d dst st seen.0 met h)

  produced-In :
      (e : Ended)
      → EndsIn Between Claimed e
      → EndsIn Between Claimed (elim e [
        | finished st ↦ finished (list_ended env st)
        | stopped st ↦ stopped (list_ended env st)
        | failed st ↦ failed st
        | panicked st ↦ panicked st
      ])
  produced-In (finished st) h = keeps.ends st h
  produced-In (stopped st) (inl h) = inl (keeps.ends st h)
  produced-In (stopped st) (inr h) = inr (keeps.ends_claimed st h)
  produced-In (failed st) h = h
  produced-In (panicked st) h = h

  -- The rule for the whole of `produce`.
  pub produce-In :
      (src : List Gated) (dst : Stream) (st : State)
      → All (λ (g : Gated). MetIf Met g.obj) src
      → All Met (objects dst)
      → Between st
      → EndsIn Between Claimed (produce env src dst st)
  unfolding produce
  produce-In src dst st seen met h =
      produced-In (merge env src none dst st) (merge-In src none dst st seen met h)

-- ===== src/Produce/Safety.antt =====
-- Nothing that the source still has is deleted at the destination.
use my_sync.Common.{
  ◌≡◌, ◌≢◌, refl, subst, true, Option, none, some, List, [], ◌∷◌, arith, All, if◌then◌else◌,
  Bool-cases, inl, inr,
}
use my_sync.Common.Int.{ℤ}
use my_sync.Common.Key.{Key, key_eq, key_lt_total}
use my_sync.Object.{Object, key, size, mark_delete_dst}
use my_sync.Gate.{SyncRecord}
use my_sync.Filter.{Stream}
use my_sync.Filter.Laws.{objects, Rising}
use my_sync.Produce.Compare.{Env}
use my_sync.Produce.Effects.{State, perform, note_last_listed, incr_total, list_ended}
use my_sync.Produce.Frame.{sent-track_scanned}
use my_sync.Produce.Align.{
  Aligned, aligned, align_stopped, align_failed, align, Drained, drained, drain_stopped,
  drain_failed, drain,
}
use my_sync.Produce.{
  Gated, Ended, finished, stopped, failed, panicked, ignored_dir, claim_limit, claimed, after_same,
  verdict_of, finish_dst, ended_by, merge, Turn, go, halt, carried, decide, turn_claimed, turn,
  produce,
}
use my_sync.Produce.Harmless.{Safe, Safe-sent, perform-Safe, verdict_plain, Cover, Cover-next}
use my_sync.Produce.Alignment.{waiting, Reached, AlignedSafe, align-Safe, DrainedSafe, drain-Safe}

abbrev pub EndedSafe : List Object → Ended → Type 0
EndedSafe source (finished st) = Safe source st
EndedSafe source (stopped st) = Safe source st
EndedSafe source (failed st) = Safe source st
EndedSafe source (panicked st) = Safe source st

ended_by-Safe :
    (source : List Object) (r : Drained) → DrainedSafe source r → EndedSafe source (ended_by r)
ended_by-Safe source (drained st) h = h
ended_by-Safe source (drain_stopped st) h = h
ended_by-Safe source (drain_failed st) h = h

finish_dst-Safe :
    (env : Env) (source : List Object) (low : Option Key) (d : Option Object) (dst : Stream)
    (st : State)
    → Cover source low []
    → Rising low (waiting d dst)
    → Safe source st
    → EndedSafe source (finish_dst env d dst st)
unfolding finish_dst
finish_dst-Safe env source low d dst st cover dsts safe = elim (Bool-cases env.config.delete_dst) [
  | inr e ↦ rw e safe
  | inl e ↦ rw e (rest d dsts)
]
  where
    rest :
        (d : Option Object)
        → Rising low (waiting d dst)
        → EndedSafe source (elim d [
          | none ↦ ended_by (drain env dst st)
          | some d ↦ ended_by (drain env (some d ∷ dst) st)
        ])
    rest none h =
        ended_by-Safe source (drain env dst st) (drain-Safe env source low dst st cover h safe)
    rest (some d) h =
        ended_by-Safe source (drain env (some d ∷ dst) st)
          (drain-Safe env source low (some d ∷ dst) st cover h safe)

key_eq→eq : (j k : Key) → key_eq k j ≡ true → j ≡ k
key_eq→eq j k h = ground (arith, h)

-- What is left past `o` sorts after it.
after_same-Rising :
    (o : Object) (d : Option Object) (dst : Stream)
    → Reached o d dst
    → Rising (some (key o)) (waiting (after_same o d) dst)
after_same-Rising o none dst r = r
after_same-Rising o (some d) dst r = elim (Bool-cases (key_eq (key o) (key d))) [
  | inl same ↦
      rw same (subst (λ k. Rising (some k) (objects dst)) (key_eq→eq (key d) (key o) same) r.1)
  | inr other ↦ rw other (ground (arith, r.0, other, key_lt_total (key o) (key d)), r.1)
]

abbrev pub kept_of : Env → Option Object → List Object → List Object
kept_of env none rest = []
kept_of env (some o) rest = if ignored_dir env o then rest else o ∷ rest

-- The source objects that are not ignored directories, up to a failed listing.
abbrev pub kept : Env → List Gated → List Object
kept env [] = []
kept env (g ∷ src) = kept_of env g.obj (kept env src)

-- Not the mark of a deletion. The sizes of listed objects are not negative.
abbrev pub Plain : Object → Type 0
Plain o = size o ≢ mark_delete_dst

abbrev pub PlainIf : Option Object → Type 0
PlainIf none = Unit
PlainIf (some o) = Plain o

-- What the next turn can rely on, with `rest` left of the source.
abbrev TurnSafe : List Object → List Object → Turn → Type 0
TurnSafe source rest (halt ended) = EndedSafe source ended
TurnSafe source rest (go d dst st) =
    (low : Option Key) × Cover source low rest
    × Rising low rest
    × Rising low (waiting d dst)
    × Safe source st

module _ (env : Env) (source rest : List Object) (o : Object) (rec : Option SyncRecord) where
  carried-Safe :
      (d : Option Object) (dst : Stream) (st : State) (after : Option State)
      → perform env o (verdict_of env o rec d) st ≡ after
      → Plain o
      → Cover source (some (key o)) rest
      → Rising (some (key o)) rest
      → Reached o d dst
      → Safe source st
      → TurnSafe source rest (carried o d dst st after)
  unfolding carried
  carried-Safe d dst st none e plain cover rising reached safe = safe
  carried-Safe d dst st (some st') e plain cover rising reached safe = (
    some (key o),
    cover,
    rising,
    after_same-Rising o d dst reached,
    perform-Safe env source o (verdict_of env o rec d) st st' plain (verdict_plain env o rec d) e
        safe,
  )

  decide-Safe :
      (r : Aligned)
      → Plain o
      → Cover source (some (key o)) rest
      → Rising (some (key o)) rest
      → AlignedSafe source o r
      → TurnSafe source rest (decide env o rec r)
  unfolding decide
  decide-Safe (aligned d dst st) plain cover rising h =
      carried-Safe d dst st (perform env o (verdict_of env o rec d) st) refl plain cover rising h.1
        h.0
  decide-Safe (align_stopped st) plain cover rising h = h
  decide-Safe (align_failed st) plain cover rising h = h

  turn_claimed-Safe :
      (low : Option Key) (d : Option Object) (dst : Stream) (st : State) (left : Option ℤ)
      → Plain o
      → Cover source low (o ∷ rest)
      → Rising low (o ∷ rest)
      → Rising low (waiting d dst)
      → Safe source st
      → TurnSafe source rest (turn_claimed env o rec d dst st left)
  unfolding turn_claimed incr_total
  turn_claimed-Safe low d dst st none plain cover rising dsts safe = safe
  turn_claimed-Safe low d dst st (some left) plain cover rising dsts safe =
      decide-Safe (align env o d dst (claimed o left st)) plain
        (Cover-next source low o rest rising.0 cover) rising.1
        (align-Safe env source rest o low d dst (claimed o left st) cover rising dsts
          (claimed-Safe left))
    where
      claimed-Safe : (left : ℤ) → Safe source (claimed o left st)
      claimed-Safe left =
          Safe-sent source (incr_total (record st { limit = left })) (claimed o left st)
            (sent-track_scanned (key o) (incr_total (record st { limit = left }))) safe

turn-Safe :
    (env : Env) (source rest : List Object) (obj : Option Object) (rec : Option SyncRecord)
    (low : Option Key) (d : Option Object) (dst : Stream) (st : State)
    → PlainIf obj
    → Cover source low (kept_of env obj rest)
    → Rising low (kept_of env obj rest)
    → Rising low (waiting d dst)
    → Safe source st
    → TurnSafe source rest (turn env obj rec d dst st)
unfolding turn note_last_listed
turn-Safe env source rest none rec low d dst st plain cover rising dsts safe = safe
turn-Safe env source rest (some o) rec low d dst st plain cover rising dsts safe =
    elim (Bool-cases (ignored_dir env o)) [
      | inl e ↦ rw e (low, (rw e at cover), (rw e at rising), dsts, safe)
      | inr e ↦ rw e (
          turn_claimed-Safe env source rest o rec low d dst st (claim_limit st.limit) plain
            (rw e at cover) (rw e at rising) dsts safe)
    ]

-- The loop goes on safely from a safe turn.
continued :
    (source rest : List Object) (t : Turn) (next : Option Object → Stream → State → Ended)
    → ((low : Option Key) (d : Option Object) (dst : Stream) (st : State)
        → Cover source low rest
        → Rising low rest
        → Rising low (waiting d dst)
        → Safe source st
        → EndedSafe source (next d dst st))
    → TurnSafe source rest t
    → EndedSafe source (elim t [ halt ended ↦ ended | go d dst st ↦ next d dst st ])
continued source rest (halt ended) next keeps h = h
continued source rest (go d dst st) next keeps (low, cover, rising, dsts, safe) =
    keeps low d dst st cover rising dsts safe

merge-Safe :
    (env : Env) (source : List Object) (src : List Gated) (low : Option Key) (d : Option Object)
    (dst : Stream) (st : State)
    → All (λ (g : Gated). PlainIf g.obj) src
    → Cover source low (kept env src)
    → Rising low (kept env src)
    → Rising low (waiting d dst)
    → Safe source st
    → EndedSafe source (merge env src d dst st)
unfolding merge
merge-Safe env source [] low d dst st plain cover rising dsts safe =
    finish_dst-Safe env source low d dst st cover dsts safe
merge-Safe env source (g ∷ src) low d dst st plain cover rising dsts safe =
    continued source (kept env src) (turn env g.obj g.rec d dst st) (merge env src)
      (λ low d dst st. merge-Safe env source src low d dst st plain.1)
      (turn-Safe env source (kept env src) g.obj g.rec low d dst st plain.0 cover rising dsts safe)

produced-Safe :
    (env : Env) (source : List Object) (e : Ended)
    → EndedSafe source e
    → EndedSafe source (elim e [
      | finished st ↦ finished (list_ended env st)
      | stopped st ↦ stopped (list_ended env st)
      | failed st ↦ failed st
      | panicked st ↦ panicked st
    ])
unfolding list_ended
produced-Safe env source (finished st) h = h
produced-Safe env source (stopped st) h = h
produced-Safe env source (failed st) h = h
produced-Safe env source (panicked st) h = h

-- Let both listings be in strictly rising order of keys, up to where one fails, ignored source
-- directories left aside, and let no listed source object have the size -2. However `produce`
-- ends, at the end, at the limit, by a failed listing or by a panic, and whatever the options,
-- the gate records and the checkpoint are: a task that deletes at the destination is not of a key
-- that the source listing has, and neither is a directory that is to be removed there later.
pub produce-Safe :
    (env : Env) (src : List Gated) (dst : Stream) (st : State)
    → All (λ (g : Gated). PlainIf g.obj) src
    → Rising none (kept env src)
    → Rising none (objects dst)
    → st.tasks ≡ []
    → st.dst_delay_del ≡ []
    → EndedSafe (kept env src) (produce env src dst st)
unfolding produce
produce-Safe env src dst st plain rising dsts none_sent none_delayed =
    produced-Safe env (kept env src) (merge env src none dst st) (
      merge-Safe env (kept env src) src none none dst st plain (λ k _ out. out) rising dsts
        (rw none_sent tt, rw none_delayed tt))

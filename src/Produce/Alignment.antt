-- ===== src/Produce/Alignment.antt =====
-- The alignment of the destination, and its drain, delete nothing that the source has.
use my_sync.Common.{◌≡◌, refl, false, Option, none, some, List, [], ◌∷◌, Bool-cases, inl, inr}
use my_sync.Common.Key.{Key, key_lt}
use my_sync.Object.{Object, key}
use my_sync.Filter.{Stream}
use my_sync.Filter.Laws.{objects, Rising}
use my_sync.Produce.Compare.{Env}
use my_sync.Produce.Effects.{State}
use my_sync.Produce.Extra.{handle_extra}
use my_sync.Produce.Align.{
  Aligned, aligned, align_stopped, align_failed, advance, align, Drained, drained, drain_stopped,
  drain_failed, drain,
}
use my_sync.Produce.Harmless.{Safe, handle_extra-Safe, Cover, Cover-Above, gap}

-- The destination objects that are still to be looked at.
abbrev pub waiting : Option Object → Stream → List Object
waiting none dst = objects dst
waiting (some d) dst = d ∷ objects dst

-- What is left of the destination sorts no earlier than `o`.
abbrev pub Reached : Object → Option Object → Stream → Type 0
Reached o none dst = Rising (some (key o)) (objects dst)
Reached o (some d) dst = (key_lt (key d) (key o) ≡ false) × Rising (some (key d)) (objects dst)

abbrev pub AlignedSafe : List Object → Object → Aligned → Type 0
AlignedSafe source o (aligned d dst st) = Safe source st × Reached o d dst
AlignedSafe source o (align_stopped st) = Safe source st
AlignedSafe source o (align_failed st) = Safe source st

module _ (env : Env) (source left : List Object) (o : Object) where
  pub advance-Safe :
      (low : Option Key) (dst : Stream) (st : State)
      → Cover source low (o ∷ left)
      → Rising low (o ∷ left)
      → Rising low (objects dst)
      → Safe source st
      → AlignedSafe source o (advance env o dst st)
  unfolding advance
  advance-Safe low [] st cover rising dsts safe = (safe, tt)
  advance-Safe low (none ∷ dst) st cover rising dsts safe = safe
  advance-Safe low (some d ∷ dst) st cover rising dsts safe =
      elim (Bool-cases (key_lt (key d) (key o))) [
        | inr e ↦ rw e (safe, (e, dsts.1))
        | inl e ↦
            let after = handle_extra env d st in
            let safe' : Safe source after.1 =
              handle_extra-Safe env source d st
                (gap source low o left (key d) cover rising dsts.0 e) safe in
            elim (Bool-cases after.0) [
              | inl stop ↦ rw (e, stop) safe'
              | inr on ↦
                  rw (e, on)
                    (advance-Safe (some (key d)) dst after.1
                      (Cover-Above source low (key d) (o ∷ left) dsts.0 cover) (e, rising.1) dsts.1
                      safe')
            ]
      ]

  pub align-Safe :
      (low : Option Key) (d : Option Object) (dst : Stream) (st : State)
      → Cover source low (o ∷ left)
      → Rising low (o ∷ left)
      → Rising low (waiting d dst)
      → Safe source st
      → AlignedSafe source o (align env o d dst st)
  unfolding align
  align-Safe low none dst st cover rising dsts safe = advance-Safe low dst st cover rising dsts safe
  align-Safe low (some d) dst st cover rising dsts safe =
      elim (Bool-cases (key_lt (key d) (key o))) [
        | inr e ↦ rw e (safe, (e, dsts.1))
        | inl e ↦
            let after = handle_extra env d st in
            let safe' : Safe source after.1 =
              handle_extra-Safe env source d st
                (gap source low o left (key d) cover rising dsts.0 e) safe in
            elim (Bool-cases after.0) [
              | inl stop ↦ rw (e, stop) safe'
              | inr on ↦
                  rw (e, on)
                    (advance-Safe (some (key d)) dst after.1
                      (Cover-Above source low (key d) (o ∷ left) dsts.0 cover) (e, rising.1) dsts.1
                      safe')
            ]
      ]

abbrev pub DrainedSafe : List Object → Drained → Type 0
DrainedSafe source (drained st) = Safe source st
DrainedSafe source (drain_stopped st) = Safe source st
DrainedSafe source (drain_failed st) = Safe source st

pub drain-Safe :
    (env : Env) (source : List Object) (low : Option Key) (dst : Stream) (st : State)
    → Cover source low []
    → Rising low (objects dst)
    → Safe source st
    → DrainedSafe source (drain env dst st)
unfolding drain
drain-Safe env source low [] st cover dsts safe = safe
drain-Safe env source low (none ∷ dst) st cover dsts safe = safe
drain-Safe env source low (some d ∷ dst) st cover dsts safe =
    let after = handle_extra env d st in
    let safe' : Safe source after.1 =
      handle_extra-Safe env source d st (cover (key d) dsts.0 refl) safe in
    elim (Bool-cases after.0) [
      | inl stop ↦ rw stop safe'
      | inr on ↦ rw on (
          drain-Safe env source (some (key d)) dst after.1
            (Cover-Above source low (key d) [] dsts.0 cover) dsts.1 safe')
    ]

-- ===== src/Produce/Harmless.antt =====
-- States of `produce` in which nothing that the source has is to be deleted, and what keeps them.
use my_sync.Common.{
  ◌≡◌, ◌≢◌, refl, sym, ap, subst, Bool, true, false, ◌||◌, Option, none, some, List, [], ◌∷◌, arith,
  All, All-append, Bool-cases, inl, inr,
}
use my_sync.Common.Key.{Key, key_eq, key_lt, key_lt_trans, key_lt_irrefl}
use my_sync.Object.{Object, base, key, size, with_size, is_dir, mark_delete_dst}
use my_sync.Gate.{SyncRecord}
use my_sync.Filter.Laws.{Above, Rising}
use my_sync.Produce.Compare.{
  Env, Verdict, send, send_marked, missing_verdict, common_verdict, gated_verdict, plain_verdict,
  marks,
}
use my_sync.Produce.Effects.{State, send_task, perform, incr_total}
use my_sync.Produce.Frame.{sent_of, sent-perform, sent_by, handle_extra_cases}
use my_sync.Produce.Extra.{handle_extra, delete_extra, limit_decr}
use my_sync.Produce.{verdict_of}

-- The key of some object of the list.
abbrev pub key_in : Key → List Object → Bool
key_in k [] = false
key_in k (o ∷ os) = key_eq (key o) k || key_in k os

-- The task deletes nothing at the destination that is in the list.
abbrev pub Justified : List Object → Object → Type 0
Justified source t = size t ≡ mark_delete_dst → key_in (key t) source ≡ false

-- No task and no delayed removal deletes a listed key at the destination.
abbrev pub Safe : List Object → State → Type 0
Safe source st =
    All (Justified source) st.tasks × All (λ k. key_in k source ≡ false) st.dst_delay_del

pub Safe-sent :
    (source : List Object) (st st' : State)
    → sent_of st' ≡ sent_of st
    → Safe source st
    → Safe source st'
Safe-sent source st st' same safe =
    subst (λ s. All (Justified source) s.tasks × All (λ k. key_in k source ≡ false) s.dst_delay_del)
      (sym same) safe

pub delete_extra-Safe :
    (env : Env) (source : List Object) (d : Object) (st : State)
    → key_in (key d) source ≡ false
    → Safe source st
    → Safe source (delete_extra env d st)
unfolding delete_extra send_task with_size key base
delete_extra-Safe env source d st out safe = elim (Bool-cases (is_dir d)) [
  | inl e ↦ rw e (
    safe.0,
    All-append (λ k. key_in k source ≡ false) st.dst_delay_del (key d ∷ []) safe.1 (out, tt),
  )
  | inr e ↦ rw e (
    All-append (Justified source) st.tasks (with_size d mark_delete_dst ∷ []) safe.0
        ((λ _. out), tt),
    safe.1,
  )
]

pub handle_extra-Safe :
    (env : Env) (source : List Object) (d : Object) (st : State)
    → key_in (key d) source ≡ false
    → Safe source st
    → Safe source (handle_extra env d st).1
unfolding incr_total limit_decr
handle_extra-Safe env source d st out safe =
    handle_extra_cases (λ r. Safe source r.1) env d st safe safe
      (λ _. delete_extra-Safe env source d (limit_decr (incr_total st)) out safe)

pub sent_by-Justified :
    (source : List Object) (o : Object) (v : Verdict)
    → size o ≢ mark_delete_dst
    → v ≢ send_marked mark_delete_dst
    → All (Justified source) (sent_by o v)
unfolding with_size size
sent_by-Justified source o send plain other = ((λ e. absurd (plain e)), tt)
sent_by-Justified source o (send_marked mark) plain other =
    ((λ e. absurd (other (ap send_marked e))), tt)
sent_by-Justified source o _ plain other = tt

pub perform-Safe :
    (env : Env) (source : List Object) (o : Object) (v : Verdict) (st st' : State)
    → size o ≢ mark_delete_dst
    → v ≢ send_marked mark_delete_dst
    → perform env o v st ≡ some st'
    → Safe source st
    → Safe source st'
perform-Safe env source o v st st' plain other e safe =
    subst (λ s. All (Justified source) s.tasks × All (λ k. key_in k source ≡ false) s.dst_delay_del)
      (sym (sent-perform env o v st st' e))
      (
        All-append (Justified source) st.tasks (sent_by o v) safe.0
            (sent_by-Justified source o v plain other),
        safe.1,
      )

pub verdict_plain :
    (env : Env) (o : Object) (rec : Option SyncRecord) (d : Option Object)
    → verdict_of env o rec d ≢ send_marked mark_delete_dst
unfolding verdict_of missing_verdict common_verdict gated_verdict plain_verdict marks
verdict_plain env o rec d h = ground arith

-- The listed keys above `low` are those of the objects that are left.
abbrev pub Cover : List Object → Option Key → List Object → Type 0
Cover source low left = (k : Key) → Above low k → key_in k left ≡ false → key_in k source ≡ false

pub key_in_below :
    (k high : Key) (os : List Object)
    → Rising (some high) os
    → key_lt k high ≡ true
    → key_in k os ≡ false
key_in_below k high [] r h = refl
key_in_below k high (o ∷ os) r h =
    let below = key_lt_trans k high (key o) h r.0 in
    ground (arith, below, key_lt_irrefl k, key_in_below k (key o) os r.1 below)

pub Above-trans : (low : Option Key) (j k : Key) → Above low j → key_lt j k ≡ true → Above low k
Above-trans none j k h g = tt
Above-trans (some low) j k h g = key_lt_trans low j k h g

pub Cover-Above :
    (source : List Object) (low : Option Key) (j : Key) (left : List Object)
    → Above low j
    → Cover source low left
    → Cover source (some j) left
Cover-Above source low j left h cover k g = cover k (Above-trans low j k h g)

-- Past the object `o`, what is left is covered by the rest.
pub Cover-next :
    (source : List Object) (low : Option Key) (o : Object) (left : List Object)
    → Above low (key o)
    → Cover source low (o ∷ left)
    → Cover source (some (key o)) left
Cover-next source low o left h cover k g out =
    cover k (Above-trans low (key o) k h g) (ground (arith, key_lt_irrefl k, out, g))

-- Between `low` and the next object there is no listed key.
pub gap :
    (source : List Object) (low : Option Key) (o : Object) (left : List Object) (k : Key)
    → Cover source low (o ∷ left)
    → Rising low (o ∷ left)
    → Above low k
    → key_lt k (key o) ≡ true
    → key_in k source ≡ false
gap source low o left k cover rising high before =
    cover k high (ground (arith, key_lt_irrefl k, key_in_below k (key o) left rising.1 before))

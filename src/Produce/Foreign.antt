-- ===== src/Produce/Foreign.antt =====
-- What neither listing shows to `produce` is not deleted.
use my_sync.Common.{◌≡◌, sym, subst, false, List, All, All-append, inl, inr}
use my_sync.Object.{Object, key, base, with_size}
use my_sync.Filter.{Stream}
use my_sync.Filter.Laws.{objects}
use my_sync.Produce.Compare.{Env, Verdict, send, send_marked}
use my_sync.Produce.Effects.{State, note_last_listed, incr_total, list_ended}
use my_sync.Produce.Frame.{sent-track_scanned, sent-perform, sent_by}
use my_sync.Produce.Harmless.{key_in, Justified, Safe, Safe-sent, handle_extra-Safe}
use my_sync.Produce.Rule.{Keeps, MetIf, EndsIn, produce-In}
use my_sync.Produce.Safety.{EndedSafe}
use my_sync.Produce.{Gated, Ended, finished, stopped, failed, panicked, claimed, produce}

module _ (env : Env) (absent : List Object) where
  -- The object is none of those.
  abbrev pub Outside : Object → Type 0
  Outside o = key_in (key o) absent ≡ false

  sent_by-Outside : (o : Object) (v : Verdict) → Outside o → All (Justified absent) (sent_by o v)
  unfolding with_size key base
  sent_by-Outside o send out = ((λ _. out), tt)
  sent_by-Outside o (send_marked mark) out = ((λ _. out), tt)
  sent_by-Outside o _ out = tt

  Foreign-Keeps : Keeps env Outside (Safe absent) (Safe absent)
  unfolding note_last_listed list_ended incr_total
  Foreign-Keeps = record {
    noted = λ o st h. h;
    claims = λ o left st e h.
        Safe-sent absent (incr_total (record st { limit = left })) (claimed o left st)
          (sent-track_scanned (key o) (incr_total (record st { limit = left }))) h;
    extra_claimed = λ d st out h. handle_extra-Safe env absent d st out h;
    extra_between = λ d st out h. handle_extra-Safe env absent d st out h;
    performs = λ o v st st' out e h.
        subst
          (λ s. All (Justified absent) s.tasks × All (λ k. key_in k absent ≡ false) s.dst_delay_del)
          (sym (sent-perform env o v st st' e))
          (All-append (Justified absent) st.tasks (sent_by o v) h.0 (sent_by-Outside o v out), h.1);
    ends = λ st h. h;
    ends_claimed = λ st h. h;
  }

  -- However `produce` ends, it deletes no key that none of the objects shown to it has.
  pub produce-Foreign :
      (src : List Gated) (dst : Stream) (st : State)
      → All (λ (g : Gated). MetIf Outside g.obj) src
      → All Outside (objects dst)
      → Safe absent st
      → EndedSafe absent (produce env src dst st)
  produce-Foreign src dst st shown met h =
      ended (produce env src dst st)
        (produce-In env Outside (Safe absent) (Safe absent) Foreign-Keeps src dst st shown met h)
    where
      ended : (e : Ended) → EndsIn (Safe absent) (Safe absent) e → EndedSafe absent e
      ended (finished st) h = h
      ended (stopped st) (inl h) = h
      ended (stopped st) (inr h) = h
      ended (failed st) (inl h) = h
      ended (failed st) (inr h) = h
      ended (panicked st) h = h

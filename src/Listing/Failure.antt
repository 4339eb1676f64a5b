-- ===== src/Listing/Failure.antt =====
-- What becomes of a listing of common prefixes that fails.
use my_sync.Common.{ℕ, ◌≡◌, refl, true, false, Option, none, some, List, [], ◌∷◌, ◌++◌, map, arith}
use my_sync.Common.Int.{negsuc, ◌-ℤ◌}
use my_sync.Common.Key.{Key}
use my_sync.Object.{Object, is_dir, with_size, mark_delete_dst}
use my_sync.Produce.Compare.{Env}
use my_sync.Produce.Effects.{State, send_task, incr_total, list_ended}
use my_sync.Produce.Extra.{handle_extra, delete_extra, limit_decr, is_own_checkpoint}
use my_sync.Produce.Align.{drain}
use my_sync.Produce.{Gated, finished, merge, finish_dst, produce}
use my_sync.Filter.{Stream}
use my_sync.Listing.{Page, list_common_prefix}

-- The objects of a listing as the producer takes them, without a gate.
abbrev pub ungated : Stream → List Gated
ungated s = map (λ o. record { obj = o; rec = none }) s

pub removed :
    (env : Env) (d : Object) (n : ℕ) (st : State)
    → env.config.delete_dst ≡ true
    → is_dir d ≡ false
    → st.limit ≡ negsuc n
    → st.manager ≡ none
    → ((handle_extra env d st).0 ≡ false)
      × ((handle_extra env d st).1.tasks ≡ st.tasks ++ (with_size d mark_delete_dst ∷ []))
unfolding handle_extra delete_extra send_task incr_total limit_decr is_own_checkpoint ◌-ℤ◌
removed env d n st on file unlimited alone =
    (ground (arith, on, file, unlimited, alone), ground (arith, on, file, unlimited, alone))

-- Under `--delete-dst`, without a limit and a checkpoint: where the first `List` of the source's
-- common prefixes fails, the producer still ends as after a complete listing, and has sent a task to
-- delete the object that the destination has, although it is not known whether the source has it.
pub list_common_prefix-failure_deletes :
    (env : Env) (prefix : Key) (pages : List (Option Page)) (d : Object) (n : ℕ) (st : State)
    → env.config.delete_dst ≡ true
    → is_dir d ≡ false
    → st.limit ≡ negsuc n
    → st.manager ≡ none
    → (st' : State) × (produce env
          (ungated (list_common_prefix prefix (none ∷ pages)).0)
          (some d ∷ [])
          st
        ≡ finished st')
      × (st'.tasks ≡ st.tasks ++ (with_size d mark_delete_dst ∷ []))
unfolding produce merge finish_dst drain list_ended list_common_prefix
list_common_prefix-failure_deletes env prefix pages d n st on file unlimited alone =
    let (goes_on, sent) = removed env d n st on file unlimited alone in
    (
      list_ended env (handle_extra env d st).1,
      simp (produce, merge, finish_dst, drain, on, goes_on) refl,
      sent,
    )

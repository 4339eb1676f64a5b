-- ===== src/Start/OutOfBounds.antt =====
-- What the bounds on size, age and time do to the comparison of the listings.
use my_sync.Common.{◌≡◌, ◌∙◌, ap, refl, true, false, none, some, [], ◌∷◌, ◌++◌, ℕ, arith}
use my_sync.Common.Int.{negsuc}
use my_sync.Object.{Object, key, base, is_dir, is_symlink, with_size, mark_delete_dst}
use my_sync.Filter.{filter, filter_key, in_bounds}
use my_sync.Listing.Failure.{removed}
use my_sync.Prefetch.{pass_through}
use my_sync.Produce.Align.{drain}
use my_sync.Produce.Compare.{Env, use_first_gate}
use my_sync.Produce.Effects.{State, list_ended}
use my_sync.Produce.Extra.{handle_extra}
use my_sync.Produce.{finished, merge, finish_dst, produce}
use my_sync.Start.{Surroundings, filtered, gated, produce_listed}

module _ (w : Surroundings) (env : Env) where
  left_out :
      (o : Object)
      → is_dir o ≡ false
      → is_symlink o ≡ false
      → in_bounds env.config w.now o ≡ false
      → filtered w env (some o ∷ []) ≡ []
  unfolding filter filter_key
  left_out o file plain out = ground (arith, file, plain, out)

  let_through :
      (d : Object)
      → filter_key w.path_match env.config w.now env.config.rules d ≡ true
      → filtered w env (some d ∷ []) ≡ some d ∷ []
  unfolding filter
  let_through d fits = rw fits refl

  ungated : env.gate ≡ false → gated w env [] ≡ []
  unfolding gated use_first_gate pass_through
  ungated no_gate = rw no_gate refl

deleted :
    (env : Env) (d : Object) (st : State)
    → env.config.delete_dst ≡ true
    → (handle_extra env d st).0 ≡ false
    → produce env [] (some d ∷ []) st ≡ finished (list_ended env (handle_extra env d st).1)
unfolding produce merge finish_dst drain list_ended
deleted env d st on goes_on = simp (produce, merge, finish_dst, drain, on, goes_on) refl

-- A file that both storages have is deleted at the destination, if the source's is out of the bounds on
-- size, age and time and the destination's passes the filter: under `--delete-dst`, without a limit, a
-- checkpoint and a gate, where each storage lists this file alone, one task is sent, which deletes the
-- key of the source's file.
pub produce_listed-out_of_bounds :
    (w : Surroundings) (env : Env) (o d : Object) (n : ℕ) (st : State)
    → env.config.delete_dst ≡ true
    → env.gate ≡ false
    → st.limit ≡ negsuc n
    → st.manager ≡ none
    → is_dir o ≡ false
    → is_symlink o ≡ false
    → in_bounds env.config w.now o ≡ false
    → is_dir d ≡ false
    → filter_key w.path_match env.config w.now env.config.rules d ≡ true
    → key d ≡ key o
    → (st' : State) × (produce_listed w env (some o ∷ []) (some d ∷ []) st ≡ finished st')
      × (st'.tasks ≡ st.tasks ++ (with_size d mark_delete_dst ∷ []))
      × (key (with_size d mark_delete_dst) ≡ key o)
unfolding produce_listed key base with_size list_ended
produce_listed-out_of_bounds w env o d n st on no_gate unlimited alone file plain out file' fits
      same =
    let (goes_on, sent) = removed env d n st on file' unlimited alone in
    (
      list_ended env (handle_extra env d st).1,
      ap (λ src. produce env (gated w env src) (filtered w env (some d ∷ [])) st)
            (left_out w env o file plain out)
          ∙ (ap (λ gs. produce env gs (filtered w env (some d ∷ [])) st) (ungated w env no_gate)
              ∙ (ap (λ dst. produce env [] dst st) (let_through w env d fits)
                  ∙ deleted env d st on goes_on)),
      sent,
      same,
    )

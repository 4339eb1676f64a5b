-- ===== src/Examples/Starting.antt =====
-- The source has `b`, and the destination `a` and `b`.
use my_sync.Common.{◌≡◌, some, refl, true, false, none, List, [], ◌∷◌}
use my_sync.Common.Int.{negsuc}
use my_sync.Object.{Object, size, is_dir, is_symlink}
use my_sync.Filter.{in_bounds}
use my_sync.Listing.{ListAnswers, not_supported, gives, list_all}
use my_sync.Start.{Surroundings, start_single}
use my_sync.Produce.Safety.{EndedSafe}
use my_sync.Start.Safety.{source_shown, start_single-Safe}
use my_sync.Object.{key, base, with_size, mark_delete_dst}
use my_sync.Filter.{filter_key}
use my_sync.Rules.{match_leveled_path, levels_allowed, split, level_allowed}
use my_sync.Produce.Effects.{State}
use my_sync.Produce.{finished}
use my_sync.Start.{produce_listed}
use my_sync.Start.OutOfBounds.{produce_listed-out_of_bounds}
use my_sync.Examples.{object_at, key_b}
use my_sync.Examples.{object_a, object_b, env_delete, start_state, no_records}

abbrev pub page_of : List Object → ListAnswers
page_of os = record {
  start_object = none;
  all = not_supported;
  first = gives (record { objs = os; has_more = false });
  calls = [];
  delimited = none;
}

abbrev pub two_storages : Surroundings
two_storages = record {
  path_match = λ p k. false;
  now = 100;
  source = λ start. page_of (object_b ∷ []);
  target = λ start. page_of (object_a ∷ object_b ∷ []);
  get_records = no_records;
  fires = true ∷ [];
}

start_single-Safe_example :
    EndedSafe
      (source_shown two_storages env_delete (start_state (negsuc 0)))
      (start_single two_storages env_delete (start_state (negsuc 0)))
unfolding list_all size is_dir is_symlink in_bounds
start_single-Safe_example =
    start_single-Safe two_storages env_delete (start_state (negsuc 0)) refl
      (refl, (record { objs = object_b ∷ []; has_more = false }, refl))
      (refl, (record { objs = object_a ∷ object_b ∷ []; has_more = false }, refl))
      (((λ e. cc), tt), (refl, tt)) refl refl

-- The source's file is larger than the bound of 100 bytes.
abbrev large_b : Object
large_b = object_at key_b 200 3_000_000_000

produce_listed-out_of_bounds_example :
    (st' : State) × (produce_listed two_storages env_delete
        (some large_b ∷ [])
        (some object_b ∷ [])
        (record (start_state (negsuc 0)) { manager = none })
      ≡ finished st')
    × (st'.tasks ≡ with_size object_b mark_delete_dst ∷ [])
    × (key (with_size object_b mark_delete_dst) ≡ key large_b)
unfolding is_dir is_symlink in_bounds size key base filter_key match_leveled_path levels_allowed
    split level_allowed
produce_listed-out_of_bounds_example =
    produce_listed-out_of_bounds two_storages env_delete large_b object_b 0
      (record (start_state (negsuc 0)) { manager = none }) refl refl refl refl refl refl refl refl
      refl refl

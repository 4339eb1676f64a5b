-- ===== src/Examples/Travel.antt =====
-- Messages and parts at concrete inputs.
use my_sync.Common.{true, none, ◌≡◌, refl, some, [], ◌∷◌, arith}
use my_sync.Common.Map.{key_keys, number_keys}
use my_sync.Object.{base, sized, mark_checksum, entry}
use my_sync.Wire.{got, through_json, marshal_task, unmarshal_task, reload}
use my_sync.Wire.RoundTrip.{task, unmarshal_task-marshal_task, reload-mark}
use my_sync.Parts.{part_ranges}
use my_sync.Parts.Ranges.{Tiles, part_ranges-Tiles}
use my_sync.Config.{Config}
use my_sync.Resume.{validate_config, with_config}
use my_sync.Resume.Agreement.{verdict_of-validated}
use my_sync.Produce.{verdict_of, ignored_dir}
use my_sync.Common.Key.{Key-discrete}
use my_sync.Checkpoint.{Manager, objects, prefix_state, restored_before, restore_prefix}
use my_sync.Checkpoint.Outstanding.{is_outstanding}
use my_sync.Uploads.{new_store}
use my_sync.Common.Map
use my_sync.Common.Key.{Key}
use my_sync.Wire.Saved.{load, restore_prefix-load}
use my_sync.Examples.{manager_p, prefix_p, state_p}
use my_sync.Examples.{config_with, env_delete, object_a, key_a, state_u, plain_formats, entry_a}

unmarshal_task-marshal_task_example :
    unmarshal_task plain_formats (
      through_json plain_formats
        (marshal_task plain_formats (task entry_a (some mark_checksum) (some state_u))))
    ≡ got (task entry_a (some mark_checksum) (some state_u))
unmarshal_task-marshal_task_example =
    unmarshal_task-marshal_task plain_formats entry_a (some mark_checksum) (some state_u)
      (refl, refl, refl, tt) refl (refl, refl) refl

reload-mark_example :
    reload plain_formats ((key_a, sized (entry entry_a) mark_checksum) ∷ [])
    ≡ (key_a, entry (record entry_a { size = mark_checksum })) ∷ []
reload-mark_example = reload-mark plain_formats entry_a mark_checksum (refl, refl, refl, tt) refl

part_ranges-Tiles_example : Tiles 5 0 0 (part_ranges 5 12) 12
part_ranges-Tiles_example = part_ranges-Tiles 5 12 (omega arith) (omega arith)

-- A run with the gate, and after the checkpoint a dry one.
abbrev gate_config : Config
gate_config = record (config_with []) { db_dsn = key_a }

abbrev dry_config : Config
dry_config = record gate_config { dry = true }

verdict_of-validated_example :
    (verdict_of
        (with_config (λ dsn table. true) env_delete gate_config)
        object_a
        none
        (some object_a)
      ≡ verdict_of
          (with_config (λ dsn table. true) env_delete dry_config)
          object_a
          none
          (some object_a))
    × (ignored_dir (with_config (λ dsn table. true) env_delete gate_config) object_a
        ≡ ignored_dir (with_config (λ dsn table. true) env_delete dry_config) object_a)
    × (gate_config.delete_dst ≡ dry_config.delete_dst)
unfolding validate_config Key-discrete
verdict_of-validated_example =
    verdict_of-validated (λ dsn table. true) (λ dsn table. none) env_delete gate_config dry_config
      object_a (some object_a) refl refl refl

-- The manager of the next run.
abbrev fresh_manager : Manager
fresh_manager = record manager_p { prefixes = []; checkpoint_key = 46 ∷ [] }

restore_prefix-load_example :
    let r = restore_prefix (load plain_formats manager_p new_store fresh_manager) prefix_p in
    (r.0.objs ≡ some (objects (prefix_state r.1 prefix_p).pending))
    × ((k : Key)
        → Map.contains (prefix_state r.1 prefix_p).pending k ≡ is_outstanding manager_p prefix_p k)
    × ((k : Key)
        → is_outstanding manager_p prefix_p k ≡ true
        → Map.get r.1.key_prefix k ≡ some prefix_p)
    × (restore_prefix r.1 prefix_p ≡ (restored_before, r.1))
unfolding Map.get Key-discrete base
restore_prefix-load_example =
    restore_prefix-load plain_formats manager_p fresh_manager new_store prefix_p state_p refl
      (refl, tt) (((refl, (refl, refl, refl, tt)), tt), ((refl, (refl, refl, refl, tt)), tt)) refl

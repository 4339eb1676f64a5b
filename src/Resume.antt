-- ===== src/Resume.antt =====
-- `ValidateConfig` (pkg/sync/checkpoint.go): whether a run may go on from a checkpoint. The log
-- lines are left out. Times are instants here; the code compares `time.Time` with `!=`, which also
-- refuses one instant of two time zones. `--db` and `--gate-table` are not among the checks.
pub mod Agreement
use my_sync.Common.{
  is_empty, Bool, true, false, not, ◌&&◌, ◌||◌, List, [], ◌∷◌, ◌==◌, if◌then◌else◌,
}
use my_sync.Common.Int.{eqb_ℤ}
use my_sync.Common.Key.{Key, key_eq}
use my_sync.Config.{Config}
use my_sync.Produce.Compare.{Env}

abbrev pub eqb : Bool → Bool → Bool
eqb true b = b
eqb false b = not b

-- `slices.Equal`
abbrev pub keys_eq : List Key → List Key → Bool
keys_eq [] [] = true
keys_eq [] (k ∷ ks) = false
keys_eq (j ∷ js) [] = false
keys_eq (j ∷ js) (k ∷ ks) = key_eq j k && keys_eq js ks

-- `ValidateConfig`: its ten checks in order, each of which returns false where fields differ.
unfoldable pub validate_config : Config → Config → Bool
validate_config old current =
    (key_eq old.start current.start && key_eq old.end current.end)
    && ((keys_eq old.includes current.includes && keys_eq old.exclude current.exclude)
        && ((eqb old.delete_src current.delete_src && eqb old.delete_dst current.delete_dst)
            && ((eqb old.update current.update
                  && (eqb old.force_update current.force_update
                      && (eqb old.existing current.existing
                          && eqb old.ignore_existing current.ignore_existing)))
                && ((eqb old.links current.links
                      && (eqb old.check_all current.check_all
                          && (eqb old.check_new current.check_new
                              && eqb old.check_change current.check_change)))
                    && ((eqb old.perms current.perms && eqb old.dirs current.dirs)
                        && ((eqb_ℤ old.max_size current.max_size
                              && (eqb_ℤ old.min_size current.min_size
                                  && (old.max_age == current.max_age
                                      && old.min_age == current.min_age)))
                            && (key_eq old.files_from current.files_from
                                && (eqb old.match_full_path current.match_full_path
                                    && (old.start_time == current.start_time
                                        && old.end_time == current.end_time)))))))))

-- A run with the config: its gate and the buffer of the gate's records are there if `--db` names a
-- database and this opens with the table of the gate, by `opens`.
unfoldable pub with_config : (Key → Key → Bool) → Env → Config → Env
with_config opens env config =
    let gate = not (is_empty config.db_dsn) && opens config.db_dsn config.gate_table in
    record env { config = config; gate = gate; gate_buffer = gate }

-- ===== src/Config.antt =====
-- The fields of `Config` (pkg/sync/config.go) that steer listing, comparison and the workers.
use my_sync.Common.{ℕ, Bool, List}
use my_sync.Common.Int.{ℤ}
use my_sync.Common.Key.{Key}

-- `rule` of pkg/sync/sync.go.
pub record Rule : Type 0 where
  pub pattern : Key
  pub is_include : Bool

-- Durations and times are in nanoseconds; the zero time means that no bound is set. `Limit`
-- changes during a run and is kept in the producer's state.
pub record Config : Type 0 where
  pub start : Key
  pub end : Key
  pub update : Bool
  pub force_update : Bool
  pub perms : Bool
  pub dry : Bool
  pub delete_src : Bool
  pub delete_src_after : Bool
  pub delete_dst : Bool
  pub match_full_path : Bool
  pub dirs : Bool
  pub exclude : List Key
  pub includes : List Key
  pub existing : Bool
  pub ignore_existing : Bool
  pub links : Bool
  pub check_all : Bool
  pub check_new : Bool
  pub check_change : Bool
  pub max_size : ℤ
  pub min_size : ℤ
  pub max_age : ℕ
  pub min_age : ℕ
  pub start_time : ℕ
  pub end_time : ℕ
  pub files_from : Key
  pub manager : Key
  pub enable_checkpoint : Bool
  pub db_dsn : Key
  pub gate_table : Key
  pub rules : List Rule

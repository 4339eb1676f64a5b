-- ===== src/Examples.antt =====
-- Small inputs for the theorems of the library.
mod Stores
mod Decisions
mod Runs
mod Travel
mod Copies
mod Listings
mod Reporting
mod Downloads
mod Credits
mod Sealing
mod Starting
mod Trees
use my_sync.Common.{ℕ, Option, true, false, none, some, List, [], ◌∷◌}
use my_sync.Common.Int.{ℤ, pos}
use my_sync.Common.Key.{Key}
use my_sync.Common.Map
use my_sync.Common.Map.{Map}
use my_sync.Object.{Entry, Object, entry, key, size, is_dir, mtime}
use my_sync.Upload.{MultipartUpload, Part, UploadState}
use my_sync.Uploads.{Store, new_store}
use my_sync.Gate.{SyncRecord, success}
use my_sync.Config.{Config, Rule}
use my_sync.Checkpoint.{Manager, PrefixState}
use my_sync.Produce.Compare.{Env}
use my_sync.Produce.Effects.{State}
use my_sync.Produce.{Gated}
use my_sync.Filter.{Stream}
use my_sync.Buffer.{
  Step, adds, ticks, flushes, saves, loop_flushes, loop_saves, close_begins, stops, close_ends,
}
use my_sync.Wire.{Formats}

-- The keys `a`, `b` and `p/`.
abbrev pub key_a : Key
key_a = 97 ∷ []

abbrev pub key_b : Key
key_b = 98 ∷ []

abbrev pub prefix_p : Key
prefix_p = 112 ∷ 47 ∷ []

abbrev pub object_at : Key → ℕ → ℕ → Object
object_at k bytes t =
    entry (record { key = k; size = pos bytes; mtime = t; is_dir = false; file = none })

abbrev pub object_a : Object
object_a = object_at key_a 5 7_000_000_000

abbrev pub object_b : Object
object_b = object_at key_b 6 3_000_000_000

abbrev pub upload_u : MultipartUpload
upload_u = record { min_part_size = 5; max_count = 100; upload_id = 117 ∷ [] }

abbrev pub state_u : UploadState
state_u = record { upload = upload_u; size = pos 12; mtime = 9; parts = []; checksums = [] }

abbrev pub part_one : Part
part_one = record { num = 1; size = 5; etag = 101 ∷ [] }

abbrev pub store_u : Store
store_u = record { heap = (0, state_u) ∷ []; uploads = (key_a, 0) ∷ []; fresh = 1 }

-- `--exclude p/`
abbrev pub exclude_p : List Rule
exclude_p = record { pattern = prefix_p; is_include = false } ∷ []

abbrev pub state_p : PrefixState
state_p = record {
  list_done = true;
  last_listed_key = key_b;
  list_depth = 0;
  pending = (key_a, object_a) ∷ [];
  failed = (key_b, object_b) ∷ [];
  is_new = false;
}

-- The manager of a run that goes on with the prefix `p/`.
abbrev pub manager_p : Manager
manager_p = record {
  prefixes = (prefix_p, state_p) ∷ [];
  uploads = new_store;
  files_from = [];
  checkpoint_key = 46 ∷ [];
  key_prefix = [];
  restored = [];
}

-- `--delete-dst`, with the rules given.
abbrev pub config_with : List Rule → Config
config_with rs = record {
  start = [];
  end = [];
  update = false;
  force_update = false;
  perms = false;
  dry = false;
  delete_src = false;
  delete_src_after = false;
  delete_dst = true;
  match_full_path = false;
  dirs = false;
  exclude = [];
  includes = [];
  existing = false;
  ignore_existing = false;
  links = false;
  check_all = false;
  check_new = false;
  check_change = false;
  max_size = pos 100;
  min_size = pos 0;
  max_age = 0;
  min_age = 0;
  start_time = 0;
  end_time = 0;
  files_from = [];
  manager = [];
  enable_checkpoint = true;
  db_dsn = [];
  gate_table = [];
  rules = rs;
}

abbrev pub env_delete : Env
env_delete = record {
  config = config_with [];
  prefix = prefix_p;
  gate = false;
  gate_buffer = false;
  db = false;
  db_skipped = false;
}

-- The start of a run with the limit given.
abbrev pub start_state : ℤ → State
start_state n = record {
  limit = n;
  total_handled = 0;
  handled_total = 0;
  handled = 0;
  skipped = 0;
  skipped_bytes = pos 0;
  extra = 0;
  extra_bytes = pos 0;
  tasks = [];
  src_delay_del = [];
  dst_delay_del = [];
  scanned = [];
  scanned_count = 0;
  gate_records = [];
  db_records = [];
  manager = none;
}

abbrev pub listed_b : List Gated
listed_b = record { obj = some object_b; rec = none } ∷ []

abbrev pub target_b : Stream
target_b = some object_b ∷ []

abbrev pub target_ab : Stream
target_ab = some object_a ∷ target_b

-- A database in which no key has a record.
abbrev pub no_records : ℕ → List Key → Option (Map Key SyncRecord)
no_records n ks = some []

abbrev pub record_a : SyncRecord
record_a = record {
  key = key_a;
  source_mtime = 1;
  source_size = pos 5;
  target_size = pos 5;
  diff = false;
  status = success;
  error_msg = [];
}

abbrev pub some_steps : List Step
some_steps =
    adds record_a
    ∷ ticks
    ∷ adds record_a
    ∷ loop_flushes
    ∷ adds record_a
    ∷ flushes
    ∷ saves 0 true
    ∷ loop_saves true
    ∷ close_begins
    ∷ adds record_a
    ∷ stops
    ∷ close_ends
    ∷ []

-- Formats that keep every value, with a time as so many digits.
abbrev pub plain_formats : Formats
plain_formats = record {
  format_time = λ t. t ∷ [];
  parse_time = λ s. elim s [ [] ↦ none | t ∷ rest ↦ some t ];
  parse_int = λ s. none;
  json_number = λ n. n;
  json_text = λ s. s;
  json_state = λ u. some u;
}

abbrev pub entry_a : Entry
entry_a = record { key = key_a; size = pos 5; mtime = 7; is_dir = false; file = none }

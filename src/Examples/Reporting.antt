-- ===== src/Examples/Reporting.antt =====
-- A worker's report.
use my_sync.Common.{ℕ, ◌≡◌, false, [], ◌∷◌}
use my_sync.Common.Map
use my_sync.Common.Map.{Map}
use my_sync.Common.Key.{Key, Key-discrete}
use my_sync.Uploads.{is_valid, saved_state}
use my_sync.Reports.{WorkerUploads, get_uploads, clear_sent}
use my_sync.Reports.Sent.{is_dirty, is_dirty-get_uploads}
use my_sync.Examples.{key_a, part_one, state_u}

-- The upload of `a` has its first part, which is dirty, as is a second one by the time of the answer.
abbrev worker_u : WorkerUploads
worker_u = record {
  store = record {
    heap = (0, record state_u { parts = (1, part_one) ∷ [] }) ∷ [];
    uploads = (key_a, 0) ∷ [];
    fresh = 1;
  };
  dirty = (key_a, (1, tt) ∷ []) ∷ [];
}

abbrev dirty_then : Map Key (Map ℕ (Unit {0}))
dirty_then = (key_a, (2, tt) ∷ (1, tt) ∷ []) ∷ []

is_dirty-get_uploads_example :
    is_dirty (clear_sent dirty_then (get_uploads worker_u)) key_a 1 ≡ false
unfolding Map.get is_valid saved_state Key-discrete
is_dirty-get_uploads_example = is_dirty-get_uploads worker_u dirty_then key_a 1

-- ===== src/Scan.antt =====
-- `scanOnly` and `scanOnlyCSV` (pkg/sync/sync.go): two sorted listings are compared, and each key
-- is reported. `pull` looks one object ahead on either side, which is the head of its list here.
pub mod Coverage
pub mod Verdicts
use my_sync.Common.{ℕ, suc, Bool, true, false, Option, none, some, List, [], ◌∷◌, if◌then◌else◌}
use my_sync.Common.Int.{ℤ, eqb_ℤ}
use my_sync.Common.Key.{Key, key_lt}
use my_sync.Object.{Object, key, size, mtime}
use my_sync.Filter.{Stream}

-- The values of `ObjectStatus` that a scan gives.
pub data ScanStatus : Type 0 where
  extra missing matches differs : ScanStatus

-- What is recorded of a key. An extra key has no source key, which `status` tells; `none` is the
-- zero time.
pub record Row : Type 0 where
  pub row_key : Key
  pub row_size : ℤ
  pub status : ScanStatus
  pub source_mtime : Option ℕ
  pub target_mtime : Option ℕ

-- The rows, the counters, and whether a listing failed, in which case nothing but the rows is left.
pub record Report : Type 0 where
  pub rows : List Row
  pub total : ℕ
  pub matched : ℕ
  pub differing : ℕ
  pub missed : ℕ
  pub extras : ℕ
  pub failed : Bool

abbrev pub empty_report : Bool → Report
empty_report failed = record {
  rows = [];
  total = 0;
  matched = 0;
  differing = 0;
  missed = 0;
  extras = 0;
  failed = failed;
}

-- A row is recorded before the rest.
unfoldable pub note : Row → Report → Report
note row r = elim row.status [
  | extra ↦ record r { rows = row ∷ r.rows; extras = suc r.extras }
  | missing ↦ record r { rows = row ∷ r.rows; total = suc r.total; missed = suc r.missed }
  | matches ↦ record r { rows = row ∷ r.rows; total = suc r.total; matched = suc r.matched }
  | differs ↦ record r { rows = row ∷ r.rows; total = suc r.total; differing = suc r.differing }
]

unfoldable pub extra_row : Object → Row
extra_row d = record {
  row_key = key d;
  row_size = size d;
  status = extra;
  source_mtime = none;
  target_mtime = some (mtime d);
}

unfoldable pub missing_row : Object → Row
missing_row o = record {
  row_key = key o;
  row_size = size o;
  status = missing;
  source_mtime = some (mtime o);
  target_mtime = none;
}

unfoldable pub common_row : Object → Object → Row
common_row o d = record {
  row_key = key o;
  row_size = size o;
  status = if eqb_ℤ (size o) (size d) then matches else differs;
  source_mtime = some (mtime o);
  target_mtime = some (mtime d);
}

-- Which side's key is the lesser.
pub data Side : Type 0 where
  source_only target_only both : Side

unfoldable pub side : Object → Object → Side
side o d =
    if key_lt (key o) (key d)
    then source_only
    else if key_lt (key d) (key o)
    then target_only
    else both

-- The loop. A failed listing stops it before the object at hand of the other side is recorded.
unfoldable pub scan : Stream → Stream → Report
scan [] [] = empty_report false
scan (none ∷ src) dst = empty_report true
scan [] (none ∷ dst) = empty_report true
scan (some o ∷ src) (none ∷ dst) = empty_report true
scan [] (some d ∷ dst) = note (extra_row d) (scan [] dst)
scan (some o ∷ src) [] = note (missing_row o) (scan src [])
scan (some o ∷ src) (some d ∷ dst) = elim (side o d) [
  | source_only ↦ note (missing_row o) (scan src (some d ∷ dst))
  | target_only ↦ note (extra_row d) (scan (some o ∷ src) dst)
  | both ↦ note (common_row o d) (scan src dst)
]

-- ===== src/Scan/Coverage.antt =====
-- What a scan covers.
use my_sync.Common.{◌+◌, ◌≡◌, refl, false, ◌||◌, none, some, List, [], ◌∷◌, map, length, arith}
use my_sync.Common.Key.{Key, key_lt_total}
use my_sync.Object.{Object, key}
use my_sync.Filter.{Stream}
use my_sync.Filter.Laws.{objects, listing_failed}
use my_sync.Scan.{
  extra, missing, Row, Report, note, extra_row, missing_row, common_row, scan, Side, source_only,
  target_only, both, side,
}

-- The keys of the rows that are of a source object.
abbrev pub source_keys : List Row → List Key
source_keys [] = []
source_keys (r ∷ rows) = elim r.status [
  | extra ↦ source_keys rows
  | _ ↦ r.row_key ∷ source_keys rows
]

-- The keys of the rows that are of a destination object.
abbrev pub target_keys : List Row → List Key
target_keys [] = []
target_keys (r ∷ rows) = elim r.status [
  | missing ↦ target_keys rows
  | _ ↦ r.row_key ∷ target_keys rows
]

-- The counters say how many rows of each kind there are.
abbrev pub Counts : Report → Type 0
Counts r =
    (r.total ≡ length (source_keys r.rows))
    × (r.matched + r.differing + r.missed ≡ r.total)
    × (r.extras + r.matched + r.differing ≡ length (target_keys r.rows))

-- The rows are of exactly these objects, unless a listing failed.
abbrev pub Covers : Stream → Stream → Report → Type 0
Covers src dst r =
    (r.failed ≡ listing_failed src || listing_failed dst)
    × Counts r
    × (r.failed ≡ false → source_keys r.rows ≡ map key (objects src))
    × (r.failed ≡ false → target_keys r.rows ≡ map key (objects dst))

note_missing-Covers :
    (o : Object) (src dst : Stream) (r : Report)
    → Covers src dst r
    → Covers (some o ∷ src) dst (note (missing_row o) r)
unfolding note missing_row
note_missing-Covers o src dst r h = ground (arith, h)

note_extra-Covers :
    (d : Object) (src dst : Stream) (r : Report)
    → Covers src dst r
    → Covers src (some d ∷ dst) (note (extra_row d) r)
unfolding note extra_row
note_extra-Covers d src dst r h = ground (arith, h)

note_common-Covers :
    (o d : Object) (src dst : Stream) (r : Report)
    → key o ≡ key d
    → Covers src dst r
    → Covers (some o ∷ src) (some d ∷ dst) (note (common_row o d) r)
unfolding note common_row
note_common-Covers o d src dst r e h = ground (arith, h, e)

pub side-both : (o d : Object) → side o d ≡ both → key o ≡ key d
unfolding side
side-both o d h = ground (arith, key_lt_total (key o) (key d))

by_side-Covers :
    (o d : Object) (src dst : Stream) (s : Side)
    → side o d ≡ s
    → Covers src (some d ∷ dst) (scan src (some d ∷ dst))
    → Covers (some o ∷ src) dst (scan (some o ∷ src) dst)
    → Covers src dst (scan src dst)
    → Covers (some o ∷ src) (some d ∷ dst) (elim s [
      | source_only ↦ note (missing_row o) (scan src (some d ∷ dst))
      | target_only ↦ note (extra_row d) (scan (some o ∷ src) dst)
      | both ↦ note (common_row o d) (scan src dst)
    ])
by_side-Covers o d src dst source_only e h i j =
    note_missing-Covers o src (some d ∷ dst) (scan src (some d ∷ dst)) h
by_side-Covers o d src dst target_only e h i j =
    note_extra-Covers d (some o ∷ src) dst (scan (some o ∷ src) dst) i
by_side-Covers o d src dst both e h i j =
    note_common-Covers o d src dst (scan src dst) (side-both o d e) j

-- A scan fails exactly when a listing fails. Otherwise its rows that are not of extra keys are
-- those of the source objects, one for each and in order, and its rows that are not of missing
-- keys are those of the destination objects. The counters agree with the rows, of a failed scan
-- too: the total counts the source rows and is made up of matching, differing and missing ones.
pub scan-Covers : (src dst : Stream) → Covers src dst (scan src dst)
unfolding scan
scan-Covers [] [] = ground arith
scan-Covers (none ∷ src) dst = ground arith
scan-Covers [] (none ∷ dst) = ground arith
scan-Covers (some o ∷ src) (none ∷ dst) = ground arith
scan-Covers [] (some d ∷ dst) = note_extra-Covers d [] dst (scan [] dst) (scan-Covers [] dst)
scan-Covers (some o ∷ src) [] = note_missing-Covers o src [] (scan src []) (scan-Covers src [])
scan-Covers (some o ∷ src) (some d ∷ dst) =
    by_side-Covers o d src dst (side o d) refl (scan-Covers src (some d ∷ dst))
      (scan-Covers (some o ∷ src) dst) (scan-Covers src dst)

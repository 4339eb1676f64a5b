-- ===== src/Scan/Verdicts.antt =====
-- Whether the statuses of a scan are right.
use my_sync.Common.{
  ◌≡◌, refl, sym, subst, true, Option, none, some, List, [], ◌∷◌, arith, All, if◌then◌else◌,
}
use my_sync.Common.Int.{eqb_ℤ}
use my_sync.Common.Key.{Key, key_eq, key_lt, key_lt_irrefl, key_lt_trans}
use my_sync.Object.{Object, key, size}
use my_sync.Filter.{Stream}
use my_sync.Filter.Laws.{objects, Above, Rising, Rising-weaken}
use my_sync.Scan.{
  ScanStatus, Report, extra, missing, matches, differs, Row, note, extra_row, missing_row,
  common_row, scan, Side, source_only, target_only, both, side,
}
use my_sync.Scan.Coverage.{side-both}

-- The object of a key.
abbrev pub find : Key → List Object → Option Object
find k [] = none
find k (o ∷ os) = if key_eq (key o) k then some o else find k os

-- The status of a key, from its objects on the two sides.
abbrev pub expected : Option Object → Option Object → Option ScanStatus
expected none none = none
expected none (some d) = some extra
expected (some o) none = some missing
expected (some o) (some d) = some (if eqb_ℤ (size o) (size d) then matches else differs)

abbrev pub IsRight : List Object → List Object → Row → Type 0
IsRight source target r = some r.status ≡ expected (find r.row_key source) (find r.row_key target)

-- The row is right, and its key is above `low`.
abbrev Fits : Option Key → List Object → List Object → Row → Type 0
Fits low source target r = Above low r.row_key × IsRight source target r

All-weaken {ℓ} :
    {A : Type ℓ} (P Q : A → Type 0) (xs : List A) → ((x : A) → P x → Q x) → All P xs → All Q xs
All-weaken P Q [] f h = tt
All-weaken P Q (x ∷ xs) f h = (f x h.0, All-weaken P Q xs f h.1)

Above-lt : (low : Option Key) (j k : Key) → Above low j → key_lt j k ≡ true → Above low k
Above-lt none j k h g = tt
Above-lt (some low) j k h g = key_lt_trans low j k h g

find-above :
    (k : Key) (o : Object) (os : List Object)
    → key_lt (key o) k ≡ true
    → find k (o ∷ os) ≡ find k os
find-above k o os h = ground (arith, key_lt_irrefl k, h)

find-below : (k : Key) (os : List Object) → Rising (some k) os → find k os ≡ none
find-below k [] r = refl
find-below k (o ∷ os) r =
    ground (arith, r.0, key_lt_irrefl k, find-below k os (Rising-weaken k (key o) os r.0 r.1))

find-head : (o : Object) (os : List Object) → find (key o) (o ∷ os) ≡ some o
find-head o os = ground arith

after_source :
    (low : Option Key) (o : Object) (source target : List Object) (rows : List Row)
    → Above low (key o)
    → All (Fits (some (key o)) source target) rows
    → All (Fits low (o ∷ source) target) rows
after_source low o source target rows h =
    All-weaken (Fits (some (key o)) source target) (Fits low (o ∷ source) target) rows (λ r f. (
      Above-lt low (key o) r.row_key h f.0,
      ground (arith, f.1, find-above r.row_key o source f.0),
    ))

after_target :
    (low : Option Key) (d : Object) (source target : List Object) (rows : List Row)
    → Above low (key d)
    → All (Fits (some (key d)) source target) rows
    → All (Fits low source (d ∷ target)) rows
after_target low d source target rows h =
    All-weaken (Fits (some (key d)) source target) (Fits low source (d ∷ target)) rows (λ r f. (
      Above-lt low (key d) r.row_key h f.0,
      ground (arith, f.1, find-above r.row_key d target f.0),
    ))

after_both :
    (low : Option Key) (o d : Object) (source target : List Object) (rows : List Row)
    → key o ≡ key d
    → Above low (key o)
    → All (Fits (some (key o)) source target) rows
    → All (Fits low (o ∷ source) (d ∷ target)) rows
after_both low o d source target rows e h =
    All-weaken (Fits (some (key o)) source target) (Fits low (o ∷ source) (d ∷ target)) rows (λ r f.
      (
        Above-lt low (key o) r.row_key h f.0,
        ground (
          arith,
          f.1,
          e,
          find-above r.row_key o source f.0,
          find-above r.row_key d target (subst (λ k. key_lt k r.row_key ≡ true) e f.0),
        ),
      ))

missing-Fits :
    (low : Option Key) (o : Object) (source target : List Object)
    → Above low (key o)
    → Rising (some (key o)) target
    → Fits low (o ∷ source) target (missing_row o)
unfolding missing_row
missing-Fits low o source target h r =
    (h, ground (arith, find-head o source, find-below (key o) target r))

extra-Fits :
    (low : Option Key) (d : Object) (source target : List Object)
    → Above low (key d)
    → Rising (some (key d)) source
    → Fits low source (d ∷ target) (extra_row d)
unfolding extra_row
extra-Fits low d source target h r =
    (h, ground (arith, find-head d target, find-below (key d) source r))

common-Fits :
    (low : Option Key) (o d : Object) (source target : List Object)
    → Above low (key o)
    → key o ≡ key d
    → Fits low (o ∷ source) (d ∷ target) (common_row o d)
unfolding common_row
common-Fits low o d source target h e =
    (h, ground (arith, e, find-head o source, find-head d target))

note-rows :
    (P : Row → Type 0) (row : Row) (r : Report) → P row → All P r.rows → All P (note row r).rows
unfolding note
note-rows P row r h hs = ground (arith, h, hs)

abbrev AllFit : Option Key → Stream → Stream → List Row → Type 0
AllFit low src dst rows = All (Fits low (objects src) (objects dst)) rows

side-source_only : (o d : Object) → side o d ≡ source_only → key_lt (key o) (key d) ≡ true
unfolding side
side-source_only o d h = ground (arith, h)

side-target_only : (o d : Object) → side o d ≡ target_only → key_lt (key d) (key o) ≡ true
unfolding side
side-target_only o d h = ground (arith, h)

abbrev by_side : Object → Object → Stream → Stream → Side → Report
by_side o d src dst source_only = note (missing_row o) (scan src (some d ∷ dst))
by_side o d src dst target_only = note (extra_row d) (scan (some o ∷ src) dst)
by_side o d src dst both = note (common_row o d) (scan src dst)

by_side-AllFit :
    (low : Option Key) (o d : Object) (src dst : Stream) (s : Side)
    → side o d ≡ s
    → Above low (key o)
    → Above low (key d)
    → Rising (some (key o)) (objects src)
    → Rising (some (key d)) (objects dst)
    → (key_lt (key o) (key d) ≡ true
        → AllFit (some (key o)) src (some d ∷ dst) (scan src (some d ∷ dst)).rows)
    → (key_lt (key d) (key o) ≡ true
        → AllFit (some (key d)) (some o ∷ src) dst (scan (some o ∷ src) dst).rows)
    → (key o ≡ key d → AllFit (some (key o)) src dst (scan src dst).rows)
    → AllFit low (some o ∷ src) (some d ∷ dst) (by_side o d src dst s).rows
by_side-AllFit low o d src dst source_only e lo ld rs rd h i j =
    let lt = side-source_only o d e in
    note-rows (Fits low (o ∷ objects src) (d ∷ objects dst)) (missing_row o)
      (scan src (some d ∷ dst)) (missing-Fits low o (objects src) (d ∷ objects dst) lo (lt, rd))
      (after_source low o (objects src) (d ∷ objects dst) (scan src (some d ∷ dst)).rows lo (h lt))
by_side-AllFit low o d src dst target_only e lo ld rs rd h i j =
    let lt = side-target_only o d e in
    note-rows (Fits low (o ∷ objects src) (d ∷ objects dst)) (extra_row d) (scan (some o ∷ src) dst)
      (extra-Fits low d (o ∷ objects src) (objects dst) ld (lt, rs))
      (after_target low d (o ∷ objects src) (objects dst) (scan (some o ∷ src) dst).rows ld (i lt))
by_side-AllFit low o d src dst both e lo ld rs rd h i j =
    let same = side-both o d e in
    note-rows (Fits low (o ∷ objects src) (d ∷ objects dst)) (common_row o d) (scan src dst)
      (common-Fits low o d (objects src) (objects dst) lo same)
      (after_both low o d (objects src) (objects dst) (scan src dst).rows same lo (j same))

scan-AllFit :
    (low : Option Key) (src dst : Stream)
    → Rising low (objects src)
    → Rising low (objects dst)
    → AllFit low src dst (scan src dst).rows
unfolding scan
scan-AllFit low [] [] rs rd = tt
scan-AllFit low (none ∷ src) dst rs rd = tt
scan-AllFit low [] (none ∷ dst) rs rd = tt
scan-AllFit low (some o ∷ src) (none ∷ dst) rs rd = tt
scan-AllFit low [] (some d ∷ dst) rs rd =
    note-rows (Fits low [] (d ∷ objects dst)) (extra_row d) (scan [] dst)
      (extra-Fits low d [] (objects dst) rd.0 tt)
      (after_target low d [] (objects dst) (scan [] dst).rows rd.0
        (scan-AllFit (some (key d)) [] dst tt rd.1))
scan-AllFit low (some o ∷ src) [] rs rd =
    note-rows (Fits low (o ∷ objects src) []) (missing_row o) (scan src [])
      (missing-Fits low o (objects src) [] rs.0 tt)
      (after_source low o (objects src) [] (scan src []).rows rs.0
        (scan-AllFit (some (key o)) src [] rs.1 tt))
scan-AllFit low (some o ∷ src) (some d ∷ dst) rs rd =
    by_side-AllFit low o d src dst (side o d) refl rs.0 rd.0 rs.1 rd.1
      (λ lt. scan-AllFit (some (key o)) src (some d ∷ dst) rs.1 (lt, rd.1))
      (λ lt. scan-AllFit (some (key d)) (some o ∷ src) dst (lt, rs.1) rd.1)
      (λ same.
        scan-AllFit (some (key o)) src dst rs.1
          (subst (λ k. Rising (some k) (objects dst)) (sym same) rd.1))

-- If both listings rise strictly in their keys, up to where one fails, then every row of a scan
-- has the status of its key: extra or missing where one side alone has listed the key, and
-- otherwise matching or differing as the sizes of the two objects are equal or not.
pub scan-IsRight :
    (src dst : Stream)
    → Rising none (objects src)
    → Rising none (objects dst)
    → All (IsRight (objects src) (objects dst)) (scan src dst).rows
scan-IsRight src dst rs rd =
    All-weaken (Fits none (objects src) (objects dst)) (IsRight (objects src) (objects dst))
      (scan src dst).rows (λ r f. f.1) (scan-AllFit none src dst rs rd)

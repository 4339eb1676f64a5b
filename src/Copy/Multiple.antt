-- ===== src/Copy/Multiple.antt =====
-- `doCopyMultiple` (pkg/sync/sync.go): an object is copied in parts, those that an earlier run has
-- uploaded are taken over, and each new one is noted in the store of uploads.
use my_sync.Common.{
  ℕ, suc, ◌*◌, Bool, true, false, Option, none, some, List, [], ◌∷◌, ltb, if◌then◌else◌,
}
use my_sync.Common.Int.{pos}
use my_sync.Common.Key.{Key}
use my_sync.Completion.{Failure, err_other, try_calls}
use my_sync.Upload.{MultipartUpload, Part}
use my_sync.Uploads.{Store, ensure_state, get_part, mark_part, finish}
use my_sync.Parts.{Range, part_ranges, choose_part_size}
use my_sync.Contents.{Crc}
use my_sync.Copy.{Result, ok, err, Copied, Answers, copy_range, all_copied}

-- What is copied: the key, size and time of the object, and whether a checksum is wanted.
pub record Job : Type 0 where
  pub key : Key
  pub size : ℕ
  pub mtime : ℕ
  pub cal : Bool

-- What the storages answer to the copy of one object. `order` is the order in which the copies of the
-- parts end, and `source_gone` whether the source's `Head` says that the object does not exist.
pub record MultipleAnswers : Type 0 where
  pub max_part_size : ℕ
  pub part : Range → Answers
  pub order : List Range
  pub complete : ℕ → Option Failure
  pub source_gone : Bool

-- The result, the store, the parts that `CompleteUpload` was called with where it succeeded, and
-- whether the upload was aborted.
pub record Outcome : Type 0 where
  pub result : Result ℕ
  pub store : Option Store
  pub completed : Option (List Part)
  pub aborted : Bool

-- The state of the upload in the store: its address, and the store.
abbrev pub ensured : Option Store → Job → ℕ → MultipartUpload → Option (ℕ × Store)
ensured none job part_size up = none
ensured (some s) job part_size up =
    some (ensure_state s job.key (pos job.size) job.mtime part_size up)

-- A part that the store has.
unfoldable pub saved_part : Option (ℕ × Store) → Bool → Range → Option Copied
unfolding get_part
saved_part none cal r = none
saved_part (some (ptr, s)) cal r = elim (get_part s ptr (suc r.num) cal) [
  | none ↦ none
  | some (part, sum) ↦ some (record { part = part; sum = sum })
]

-- A part is taken over or copied.
unfoldable pub part_result :
    Crc → Job → Option (ℕ × Store) → (Range → Answers) → Range → Result Copied
unfolding saved_part copy_range
part_result crc job state answers r = elim (saved_part state job.cal r) [
  | some c ↦ ok c
  | none ↦ copy_range crc job.cal r.len (answers r)
]

-- The end of one copy: a new part is noted.
abbrev note_part : Crc → Job → ℕ → Store → (Range → Answers) → Range → Store → Store
note_part crc job ptr before answers r s = elim (saved_part (some (ptr, before)) job.cal r) [
  | some c ↦ s
  | none ↦ elim (copy_range crc job.cal r.len (answers r)) [
    | err e ↦ s
    | ok c ↦ mark_part s ptr (some c.part) c.sum job.cal
  ]
]

-- The copies end one after another. What the store has of a part was read before.
unfoldable pub note_parts : Crc → Job → ℕ → Store → (Range → Answers) → List Range → Store → Store
note_parts crc job ptr before answers [] s = s
note_parts crc job ptr before answers (r ∷ rs) s =
    note_parts crc job ptr before answers rs (note_part crc job ptr before answers r s)

abbrev pub noted : Crc → Job → Option (ℕ × Store) → MultipleAnswers → Option Store
noted crc job none ans = none
noted crc job (some (ptr, s)) ans = some (note_parts crc job ptr s ans.part ans.order s)

-- The checksums of the parts are combined.
unfoldable pub combine_copied : Crc → ℕ → List (Range × Copied) → ℕ
combine_copied crc sum [] = sum
combine_copied crc sum ((r, c) ∷ cs) = combine_copied crc (crc.combine sum c.sum r.len) cs

abbrev pub object_sum : Crc → Bool → List (Range × Copied) → ℕ
object_sum crc false cs = 0
object_sum crc true [] = 0
object_sum crc true ((r, c) ∷ cs) = combine_copied crc c.sum cs

abbrev pub parts_of : List (Range × Copied) → List Part
parts_of [] = []
parts_of ((r, c) ∷ cs) = c.part ∷ parts_of cs

abbrev pub forget : Key → Option Store → Option Store
forget k none = none
forget k (some s) = some (finish s k)

-- An upload with a store is kept for a later run, unless the source is gone.
abbrev pub give_up : Job → Option Store → Bool → Outcome
give_up job none gone = record {
  result = err err_other;
  store = none;
  completed = none;
  aborted = true;
}
give_up job (some s) gone = record {
  result = err err_other;
  store = if gone then some (finish s job.key) else some s;
  completed = none;
  aborted = gone;
}

abbrev pub complete_all :
    Crc → Job → Option Store → MultipleAnswers → List (Range × Copied) → Outcome
complete_all crc job s ans cs =
    let (calls, failed) = try_calls 3 ans.complete in
    elim failed [
      | some e ↦ give_up job s ans.source_gone
      | none ↦ record {
        result = ok (object_sum crc job.cal cs);
        store = forget job.key s;
        completed = some (parts_of cs);
        aborted = false;
      }
    ]

abbrev pub too_large : Option Store → Outcome
too_large s = record { result = err err_other; store = s; completed = none; aborted = false }

abbrev pub copy_parts : Crc → Job → Option (ℕ × Store) → MultipleAnswers → List Range → Outcome
copy_parts crc job state ans ranges =
    let s = noted crc job state ans in
    elim (all_copied (part_result crc job state ans.part) ranges) [
      | none ↦ give_up job s ans.source_gone
      | some cs ↦ complete_all crc job s ans cs
    ]

-- `doCopyMultiple`
unfoldable pub copy_multiple :
    Crc → Job → MultipartUpload → Option Store → MultipleAnswers → Outcome
unfolding part_result note_parts combine_copied
copy_multiple crc job up store ans =
    if ltb (ans.max_part_size * up.max_count) job.size
    then too_large store
    else (let part_size = choose_part_size up job.size in
        copy_parts crc job (ensured store job part_size up) ans (part_ranges part_size job.size))

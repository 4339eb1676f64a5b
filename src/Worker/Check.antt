-- ===== src/Worker/Check.antt =====
-- The comparisons of a task: `doCheckSum`, `checkSum` and `checkChange` (pkg/sync/sync.go).
use my_sync.Common.{
  ℕ, ◌%◌, Bool, not, ◌&&◌, ◌||◌, Option, none, some, is_empty, [], ltb, ◌==◌, if◌then◌else◌,
}
use my_sync.Common.Int.{eqb_ℤ}
use my_sync.Common.Key.{Key, key_eq}
use my_sync.Config.{Config}
use my_sync.Object.{Object, size, mtime, is_symlink, whole_seconds, second}
use my_sync.Completion.{Failure, err_other}
use my_sync.Contents.{Crc, compare_objects, object_chksum}
use my_sync.Copy.{Result, ok, err, retry, error_of}
use my_sync.Worker.{WorkEnv, Work, Reads, TaskAnswers, count_checked}

-- A link, which is empty where the storage has no links.
abbrev link_of : Option (Result Key) → Result Key
link_of none = ok []
link_of (some r) = r

abbrev same_links : Key → Key → Bool
same_links a b = key_eq a b && (not (is_empty a) && not (is_empty b))

abbrev pub compare_links : Reads → Result Bool
compare_links reads = elim (link_of reads.src_link) [
  | err e ↦ err e
  | ok a ↦ elim (link_of reads.dst_link) [ err e ↦ err e | ok b ↦ ok (same_links a b) ]
]

abbrev pub or_failed : Option Bool → Result Bool
or_failed none = err err_other
or_failed (some b) = ok b

-- The destination's checksum against a given one, or both bodies.
abbrev pub compare_bodies : Crc → Object → Option ℕ → Reads → Result Bool
compare_bodies crc o (some sum) reads = elim (object_chksum crc reads.dst_reader (size o)) [
  | none ↦ err err_other
  | some found ↦ ok (sum == found)
]
compare_bodies crc o none reads =
    or_failed (compare_objects reads.src_reader reads.dst_reader (size o) reads.order)

abbrev pub checks : Config → Bool
checks config = config.check_all || config.check_new

-- `doCheckSum`
unfoldable pub do_check_sum : WorkEnv → Object → Option ℕ → Reads → Result Bool
do_check_sum env o sum reads =
    if is_symlink o && (env.config.links && checks env.config)
    then compare_links reads
    else compare_bodies env.crc o sum reads

-- `checkSum`
unfoldable pub check_sum : WorkEnv → Object → Option ℕ → (ℕ → Reads) → Work → Work × Result Bool
unfolding do_check_sum
check_sum env o sum reads w =
    let r = retry 3 (λ i. do_check_sum env o sum (reads i)) in
    elim (error_of r) [ none ↦ (count_checked w, r) | some e ↦ (w, r) ]

-- Whether an object has changed: `Head` may leave out the milliseconds.
abbrev millisecond : ℕ
millisecond = 1_000_000

unfoldable pub unchanged : Object → Object → Bool
unchanged now o =
    eqb_ℤ (size now) (size o)
    && (mtime now == mtime o
        || whole_seconds (mtime now) == whole_seconds (mtime o)
          && ltb (mtime now % second) millisecond)

abbrev pub change_error : TaskAnswers → Object → Option Failure
change_error ans o = elim ans.src_now [
  | err e ↦ some err_other
  | ok now ↦ if not (unchanged now o) then some err_other else elim ans.dst_now [
    | err e ↦ some err_other
    | ok there ↦ if eqb_ℤ (size now) (size there) then none else some err_other
  ]
]

-- `checkChange`. A check is counted where the source's `Head` succeeds, unless checksums count it.
unfoldable pub check_change : WorkEnv → TaskAnswers → Object → Work → Work × Option Failure
unfolding unchanged
check_change env ans o w =
    if env.config.links && is_symlink o then (w, none) else elim ans.src_now [
      | err e ↦ (w, some err_other)
      | ok now ↦ ((if checks env.config then w else count_checked w), change_error ans o)
    ]

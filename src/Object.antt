-- ===== src/Object.antt =====
-- `object.Object` of pkg/object/interface.go and object_storage.go, and the wrappers of
-- pkg/sync/sync.go that mark a task by a negative size or carry a multipart checkpoint.
use my_sync.Common.{ℕ, ◌/◌, Bool, false, not, ◌||◌, Option, none, some}
use my_sync.Common.Int.{ℤ, negsuc}
use my_sync.Common.{◌==◌}
use my_sync.Common.Key.{Key, key_eq}
use my_sync.Upload.{UploadState}

-- What `object.File` adds to an object.
pub record FileAttrs : Type 0 where
  pub owner : Key
  pub group : Key
  pub mode : ℕ
  pub is_symlink : Bool

-- `obj`, and `file` where `file` is given.
pub record Entry : Type 0 where
  pub key : Key
  pub size : ℤ
  pub mtime : ℕ
  pub is_dir : Bool
  pub file : Option FileAttrs

-- `objWithSize` and `fileWithSize` are `sized`; `objWithMultipart` and `fileWithMultipart` are
-- `with_parts`.
pub data Object : Type 0 where
  entry : Entry → Object
  sized : Object → ℤ → Object
  with_parts : Object → UploadState → Object

-- The object under all its wrappers.
unfoldable pub base : Object → Entry
base (entry e) = e
base (sized o n) = base o
base (with_parts o u) = base o

unfoldable pub key : Object → Key
unfolding base
key o = (base o).key

unfoldable pub mtime : Object → ℕ
unfolding base
mtime o = (base o).mtime

unfoldable pub is_dir : Object → Bool
unfolding base
is_dir o = (base o).is_dir

-- The outermost size wrapper answers.
unfoldable pub size : Object → ℤ
size (entry e) = e.size
size (sized o n) = n
size (with_parts o u) = size o

abbrev symlink_of : Option FileAttrs → Bool
symlink_of none = false
symlink_of (some f) = f.is_symlink

unfoldable pub is_symlink : Object → Bool
unfolding base
is_symlink o = symlink_of (base o).file

-- The `o.(object.File)` assertion.
unfoldable pub as_file : Object → Option FileAttrs
unfolding base
as_file o = (base o).file

-- `withSize`
unfoldable pub with_size : Object → ℤ → Object
with_size o n = sized o n

-- `withoutSize`: one wrapper, if the outermost is a size.
unfoldable pub without_size : Object → Object
without_size (sized o n) = o
without_size o = o

-- `withMultipart`
unfoldable pub with_multipart : Object → UploadState → Object
with_multipart o u = with_parts o u

-- `multipartCheckpoint`
unfoldable pub multipart_checkpoint : Object → Option UploadState
multipart_checkpoint (with_parts o u) = some u
multipart_checkpoint o = none

-- `withoutMultipart`
unfoldable pub without_multipart : Object → Object
without_multipart (with_parts o u) = o
without_multipart o = o

-- The marks of a task.
abbrev pub mark_delete_src : ℤ
mark_delete_src = negsuc 0

abbrev pub mark_delete_dst : ℤ
mark_delete_dst = negsuc 1

abbrev pub mark_copy_perms : ℤ
mark_copy_perms = negsuc 2

abbrev pub mark_checksum : ℤ
mark_checksum = negsuc 3

-- `needCopyPerms`: both assertions panic on an object that is no file, which is `none`.
abbrev pub attrs_differ : FileAttrs → FileAttrs → Bool
attrs_differ f g =
    not (f.mode == g.mode) || not (key_eq f.owner g.owner) || not (key_eq f.group g.group)

unfoldable pub need_copy_perms : Object → Object → Option Bool
unfolding as_file
need_copy_perms o1 o2 = elim (as_file o1) [
  | none ↦ none
  | some f1 ↦ elim (as_file o2) [ none ↦ none | some f2 ↦ some (attrs_differ f2 f1) ]
]

-- `Unix()` counts whole seconds; the offset to 1970 is the same on both sides of a comparison.
abbrev pub second : ℕ
second = 1_000_000_000

abbrev pub whole_seconds : ℕ → ℕ
whole_seconds t = t / second

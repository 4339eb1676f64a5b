-- ===== src/Wire.antt =====
-- How objects travel: `MarshalObject` and `UnmarshalObject` (pkg/object/object_storage.go), the
-- messages of the cluster mode (pkg/sync/cluster.go), and the saved form of a prefix
-- (pkg/sync/checkpoint.go).
pub mod RoundTrip
pub mod Saved
use my_sync.Common.{
  ℕ, ◌^◌, ◌%◌, ◌≡◌, Bool, true, false, not, ◌&&◌, Option, none, some, List, [], ◌∷◌, if◌then◌else◌,
  is_empty,
}
use my_sync.Common.Int.{ℤ, pos, eqb_ℤ, pos_part}
use my_sync.Common.Key.{Key}
use my_sync.Common.Map.{Map}
use my_sync.Upload.{UploadState}
use my_sync.Object.{
  Object, Entry, FileAttrs, entry, key, size, mtime, is_dir, as_file, with_size, without_size,
  with_multipart, multipart_checkpoint, without_multipart,
}
use my_sync.Checkpoint.{PrefixState}

infixl 5 ◌>>=◌
abbrev ◌>>=◌ {ℓ κ} : {A : Type ℓ} {B : Type κ} → Option A → (A → Option B) → Option B
none >>= f = none
some x >>= f = f x

-- A value of a `map[string]interface{}`. JSON decodes every number as `float64`; the two other
-- kinds of number are those that the code puts in.
pub data Value : Type 0 where
  text : Key → Value
  int64 float64 : ℤ → Value
  file_mode : ℕ → Value
  flag : Bool → Value

-- The keys of the map that the code uses.
pub record Fields : Type 0 where
  pub f_key : Option Value
  pub f_size : Option Value
  pub f_mtime : Option Value
  pub f_isdir : Option Value
  pub f_mode : Option Value
  pub f_owner : Option Value
  pub f_group : Option Value
  pub f_symlink : Option Value
  pub f_nsize : Option Value
  pub f_checkpoint : Option UploadState

-- The assertions `.(string)` and `.(bool)`, the second with the zero value where it fails.
abbrev pub as_text : Option Value → Option Key
as_text (some (text s)) = some s
as_text _ = none

abbrev pub text_or_empty : Option Value → Key
text_or_empty (some (text s)) = s
text_or_empty _ = []

abbrev pub flag_or_false : Option Value → Bool
flag_or_false (some (flag b)) = b
flag_or_false _ = false

-- What the code leaves to other packages: `strconv` with the times of `time`, and `encoding/json`.
-- `json_number` is what a number is after its trip as a `float64`, `json_text` what a string is,
-- in which JSON replaces what is not UTF-8, and `json_state` what a multipart state is, if it is
-- decoded.
pub record Formats : Type 0 where
  pub format_time : ℕ → Key
  pub parse_time : Key → Option ℕ
  pub parse_int : Key → Option ℤ
  pub json_number : ℤ → ℤ
  pub json_text : Key → Key
  pub json_state : UploadState → Option UploadState

abbrev file_fields : Option FileAttrs → Fields → Fields
file_fields none m = m
file_fields (some f) m = record m {
  f_mode = some (file_mode f.mode);
  f_owner = some (text f.owner);
  f_group = some (text f.group);
  f_symlink = some (flag f.is_symlink);
}

-- `MarshalObject`
unfoldable pub marshal_object : Formats → Object → Fields
marshal_object fmt o = file_fields (as_file o) (record {
  f_key = some (text (key o));
  f_size = some (int64 (size o));
  f_mtime = some (text (fmt.format_time (mtime o)));
  f_isdir = some (flag (is_dir o));
  f_mode = none;
  f_owner = none;
  f_group = none;
  f_symlink = none;
  f_nsize = none;
  f_checkpoint = none;
})

unfoldable pub size_of : Formats → Option Value → Option ℤ
size_of fmt (some (float64 n)) = some n
size_of fmt (some (int64 n)) = some n
size_of fmt (some (text s)) = fmt.parse_int s
size_of fmt _ = none

-- `os.FileMode` of a number: 32 bits.
abbrev pub mode_of : Value → Option ℕ
mode_of (float64 n) = some (pos_part n % 2 ^ 32)
mode_of (int64 n) = some (pos_part n % 2 ^ 32)
mode_of _ = none

attrs_of : Fields → Option Value → Option (Option FileAttrs)
attrs_of m none = some none
attrs_of m (some v) = elim (mode_of v) [
  | none ↦ none
  | some mode ↦ some (
      some (record {
        owner = text_or_empty m.f_owner;
        group = text_or_empty m.f_group;
        mode = mode;
        is_symlink = flag_or_false m.f_symlink;
      }))
]

-- `UnmarshalObject`, with `none` for nil.
unfoldable pub unmarshal_object : Formats → Fields → Option Object
unfolding attrs_of
unmarshal_object fmt m = do
  k ← as_text m.f_key
  time_text ← if is_empty k then none else as_text m.f_mtime
  t ← fmt.parse_time time_text
  n ← size_of fmt m.f_size
  attrs ← attrs_of m m.f_mode
  some (
      entry
        (record { key = k; size = n; mtime = t; is_dir = flag_or_false m.f_isdir; file = attrs }))

abbrev json_value : Formats → Value → Value
json_value fmt (int64 n) = float64 (fmt.json_number n)
json_value fmt (float64 n) = float64 (fmt.json_number n)
json_value fmt (file_mode n) = float64 (fmt.json_number (pos n))
json_value fmt (text s) = text (fmt.json_text s)
json_value fmt (flag b) = flag b

abbrev json_field : Formats → Option Value → Option Value
json_field fmt none = none
json_field fmt (some v) = some (json_value fmt v)

-- The map after its encoding and decoding.
unfoldable pub through_json : Formats → Fields → Fields
through_json fmt m = record {
  f_key = json_field fmt m.f_key;
  f_size = json_field fmt m.f_size;
  f_mtime = json_field fmt m.f_mtime;
  f_isdir = json_field fmt m.f_isdir;
  f_mode = json_field fmt m.f_mode;
  f_owner = json_field fmt m.f_owner;
  f_group = json_field fmt m.f_group;
  f_symlink = json_field fmt m.f_symlink;
  f_nsize = json_field fmt m.f_nsize;
  f_checkpoint = elim m.f_checkpoint [ none ↦ none | some u ↦ fmt.json_state u ];
}

-- The body of the loop of `marshalObjects`.
unfoldable pub marshal_task : Formats → Object → Fields
marshal_task fmt o =
    let sent = without_multipart o in
    let bare = without_size sent in
    let m = marshal_object fmt bare in
    record m {
      f_nsize = if eqb_ℤ (size sent) (size bare) then none else some (int64 (size sent));
      f_checkpoint = multipart_checkpoint o;
    }

-- `nsize.(float64)` panics on anything else, which is `none`.
abbrev with_nsize : Option Value → Object → Option Object
with_nsize none o = some o
with_nsize (some (float64 n)) o = some (with_size o n)
with_nsize (some _) o = none

abbrev with_checkpoint : Option UploadState → Object → Object
with_checkpoint none o = o
with_checkpoint (some u) o = with_multipart o u

-- What the loop of `unmarshalObjects` makes of a map.
pub data Received : Type 0 where
  dropped panics : Received
  got : Object → Received

task_of : Fields → Option Object → Received
task_of m none = dropped
task_of m (some o) = elim (with_nsize m.f_nsize o) [
  | none ↦ panics
  | some sized_o ↦ got (with_checkpoint m.f_checkpoint sized_o)
]

unfoldable pub unmarshal_task : Formats → Fields → Received
unfolding task_of
unmarshal_task fmt m = task_of m (unmarshal_object fmt m)

-- `UnmarshalJSON` of what `MarshalJSON` made of a pending or failed map: objects that are not
-- decoded are left out.
unfoldable pub reload : Formats → Map Key Object → Map Key Object
reload fmt [] = []
reload fmt ((k, o) ∷ objs) = elim (unmarshal_object fmt (through_json fmt (marshal_object fmt o))) [
  | none ↦ reload fmt objs
  | some o' ↦ (fmt.json_text k, o') ∷ reload fmt objs
]

-- The saved form of a prefix, read back. `isNew` is not saved.
unfoldable pub reload_prefix : Formats → PrefixState → PrefixState
unfolding reload
reload_prefix fmt s = record {
  list_done = s.list_done;
  last_listed_key = fmt.json_text s.last_listed_key;
  list_depth = s.list_depth;
  pending = reload fmt s.pending;
  failed = reload fmt s.failed;
  is_new = false;
}

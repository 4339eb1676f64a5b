-- ===== src/Wire/RoundTrip.antt =====
-- What comes back of an object that was sent or saved.
use my_sync.Common.{
  ℕ, ◌^◌, ◌%◌, ◌<◌, ◌∙◌, ◌≡◌, refl, ap, true, false, Option, none, some, [], ◌∷◌, arith, is_empty,
}
use my_sync.Common.Int.{ℤ, pos, eqb_ℤ, pos_part}
use my_sync.Common.Key.{Key}
use my_sync.Upload.{UploadState}
use my_sync.Object.{
  Object, Entry, FileAttrs, entry, sized, with_parts, base, key, size, mtime, is_dir, as_file,
  with_size, without_size, with_multipart, multipart_checkpoint, without_multipart,
}
use my_sync.Wire.{
  Value, float64, Fields, Formats, marshal_object, unmarshal_object, through_json, size_of,
  attrs_of, marshal_task, unmarshal_task, task_of, got, reload,
}

-- The text is as it was after JSON, as all UTF-8 is.
abbrev pub TextTravels : Formats → Key → Type 0
TextTravels fmt s = fmt.json_text s ≡ s

-- The mode of a file fits 32 bits and is exact as a `float64`; its owner and group are UTF-8.
abbrev pub AttrsTravel : Formats → Option FileAttrs → Type 0
AttrsTravel fmt none = Unit
AttrsTravel fmt (some f) =
    (f.mode < 2 ^ 32)
    × (fmt.json_number (pos f.mode) ≡ pos f.mode)
    × TextTravels fmt f.owner
    × TextTravels fmt f.group

-- What a listed object has: a key in UTF-8, a time that its text gives back, and attributes that
-- travel.
abbrev pub Travels : Formats → Entry → Type 0
Travels fmt e =
    (is_empty e.key ≡ false)
    × TextTravels fmt e.key
    × (fmt.parse_time (fmt.json_text (fmt.format_time e.mtime)) ≡ some e.mtime)
    × AttrsTravel fmt e.file

mode-kept :
    (fmt : Formats) (m : ℕ)
    → m < 2 ^ 32
    → fmt.json_number (pos m) ≡ pos m
    → pos_part (fmt.json_number (pos m)) % 2 ^ 32 ≡ m
mode-kept fmt m l e = ap (λ n. pos_part n % 2 ^ 32) e ∙ omega (arith, l)

decoded_file :
    (fmt : Formats) (e : Entry) (file : Option FileAttrs)
    → Travels fmt (record e { file = file })
    → unmarshal_object fmt
        (through_json fmt (marshal_object fmt (entry (record e { file = file }))))
      ≡ some (entry (record e { size = fmt.json_number e.size; file = file }))
unfolding unmarshal_object marshal_object through_json size_of key mtime is_dir as_file base size
    attrs_of
decoded_file fmt e none (named, utf, timed, fits) = ground (arith, named, utf, timed)
decoded_file fmt e (some f) (named, utf, timed, (fits, exact, owner, group)) =
    ground (arith, named, utf, timed, owner, group, mode-kept fmt f.mode fits exact)

-- Any object of an entry that travels comes back as an entry whose size is the object's.
marshal_object-base :
    (fmt : Formats) (o : Object)
    → marshal_object fmt o ≡ marshal_object fmt (entry (record (base o) { size = size o }))
unfolding marshal_object key mtime is_dir as_file size base
marshal_object-base fmt o = refl

pub decoded :
    (fmt : Formats) (o : Object)
    → Travels fmt (base o)
    → unmarshal_object fmt (through_json fmt (marshal_object fmt o))
      ≡ some (entry (record (base o) { size = fmt.json_number (size o) }))
decoded fmt o h =
    ap (λ m. unmarshal_object fmt (through_json fmt m)) (marshal_object-base fmt o)
    ∙ decoded_file fmt (record (base o) { size = size o }) (base o).file h

-- A task of a listed entry, with the size given where there is one, and the checkpoint.
abbrev pub task : Entry → Option ℤ → Option UploadState → Object
task e none none = entry e
task e none (some u) = with_parts (entry e) u
task e (some n) none = sized (entry e) n
task e (some n) (some u) = with_parts (sized (entry e) n) u

-- The marked size differs from the real one and is exact as a `float64`.
abbrev pub MarkTravels : Formats → Entry → Option ℤ → Type 0
MarkTravels fmt e none = Unit
MarkTravels fmt e (some n) = (eqb_ℤ n e.size ≡ false) × (fmt.json_number n ≡ n)

abbrev pub StateTravels : Formats → Option UploadState → Type 0
StateTravels fmt none = Unit
StateTravels fmt (some u) = fmt.json_state u ≡ some u

-- The marks of a message are not part of the object.
object_of_message :
    (fmt : Formats) (m : Fields) (n : Option Value) (state : Option UploadState)
    → unmarshal_object fmt (record m { f_nsize = n; f_checkpoint = state }) ≡ unmarshal_object fmt m
unfolding unmarshal_object attrs_of
object_of_message fmt m n state = refl

task_arrives :
    (fmt : Formats) (e : Entry) (n : Option Value) (state : Option UploadState)
    → Travels fmt e
    → fmt.json_number e.size ≡ e.size
    → let m = record (through_json fmt (marshal_object fmt (entry e))) {
      f_nsize = n;
      f_checkpoint = state;
    } in
      unmarshal_task fmt m ≡ task_of m (some (entry e))
unfolding unmarshal_task base size
task_arrives fmt e n state h exact =
    ap
      (task_of (record (through_json fmt (marshal_object fmt (entry e))) {
        f_nsize = n;
        f_checkpoint = state;
      }))
      (object_of_message fmt (through_json fmt (marshal_object fmt (entry e))) n state
        ∙ (decoded fmt (entry e) h ∙ ap (λ k. some (entry (record e { size = k }))) exact))

abbrev marked_size : Option ℤ → Option Value
marked_size none = none
marked_size (some n) = some (float64 n)

eqb_ℤ_refl : (n : ℤ) → eqb_ℤ n n ≡ true
eqb_ℤ_refl n = ground arith

-- The message of a task.
message :
    (fmt : Formats) (e : Entry) (mark : Option ℤ) (state : Option UploadState)
    → MarkTravels fmt e mark
    → StateTravels fmt state
    → through_json fmt (marshal_task fmt (task e mark state))
      ≡ record (through_json fmt (marshal_object fmt (entry e))) {
        f_nsize = marked_size mark;
        f_checkpoint = state;
      }
unfolding marshal_task through_json without_multipart without_size multipart_checkpoint size
message fmt e none none h g = ground (arith, eqb_ℤ_refl e.size)
message fmt e none (some u) h g = ground (arith, eqb_ℤ_refl e.size, g)
message fmt e (some n) none h g = ground (arith, h)
message fmt e (some n) (some u) h g = ground (arith, h, g)

task_of-task :
    (m : Fields) (e : Entry) (mark : Option ℤ) (state : Option UploadState)
    → task_of (record m { f_nsize = marked_size mark; f_checkpoint = state }) (some (entry e))
      ≡ got (task e mark state)
unfolding task_of with_size with_multipart
task_of-task m e none none = refl
task_of-task m e none (some u) = refl
task_of-task m e (some n) none = refl
task_of-task m e (some n) (some u) = refl

-- A task that the manager of a cluster sends to a worker arrives as it was, marked size and
-- multipart checkpoint included: if its key is not empty, its key, owner and group are UTF-8, its
-- time and mode are restored by their formats, its sizes are exact as `float64`, and a marked size
-- is not the real one.
pub unmarshal_task-marshal_task :
    (fmt : Formats) (e : Entry) (mark : Option ℤ) (state : Option UploadState)
    → Travels fmt e
    → fmt.json_number e.size ≡ e.size
    → MarkTravels fmt e mark
    → StateTravels fmt state
    → unmarshal_task fmt (through_json fmt (marshal_task fmt (task e mark state)))
      ≡ got (task e mark state)
unmarshal_task-marshal_task fmt e mark state h exact marked stated =
    ap (unmarshal_task fmt) (message fmt e mark state marked stated)
    ∙ (task_arrives fmt e (marked_size mark) state h exact
        ∙ task_of-task (through_json fmt (marshal_object fmt (entry e))) e mark state)

-- A saved object comes back with its outermost size as its own: an object that was marked, when it
-- was put into the pending keys, is an object of the mark's size after a restart, whatever its real
-- size was. So no mark is left to take off. This is for a key, an owner and a group in UTF-8, and a
-- time, a mode and a mark that the formats restore.
pub reload-mark :
    (fmt : Formats) (e : Entry) (n : ℤ)
    → Travels fmt e
    → fmt.json_number n ≡ n
    → reload fmt ((e.key, sized (entry e) n) ∷ []) ≡ (e.key, entry (record e { size = n })) ∷ []
unfolding reload base size
reload-mark fmt e n h exact = ground (arith, decoded fmt (sized (entry e) n) h, exact, h.1)

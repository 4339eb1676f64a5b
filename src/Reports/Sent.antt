-- ===== src/Reports/Sent.antt =====
-- What a report takes with it.
use my_sync.Common.{
  ℕ, ◌≡◌, refl, sym, ap, ◌∙◌, Bool, true, false, not, ◌&&◌, ◌||◌, Option, none, some, List, [], ◌∷◌,
  arith, Bool-cases, Option-cases, inl, inr, if◌then◌else◌, is_empty, ℕ_discrete,
}
use my_sync.Common.Key.{Key, Key-discrete}
use my_sync.Common.Map
use my_sync.Common.Map.{Map, key_keys, number_keys, ◌=?◌}
use my_sync.Upload.{Part, UploadState}
use my_sync.Uploads.{saved_state, is_valid}
use my_sync.Reports.{
  WorkerUploads, pick, picked, unless_empty, report_of, report_keys, get_uploads, clear_parts,
  put_or_delete, clear_key, clear_sent,
}

-- A part is dirty.
abbrev pub is_dirty : Map Key (Map ℕ (Unit {0})) → Key → ℕ → Bool
is_dirty dirty k n = elim (Map.get dirty k) [ none ↦ false | some nums ↦ Map.contains nums n ]

-- A part is among the uploads that were sent.
abbrev pub was_sent : Map Key UploadState → Key → ℕ → Bool
was_sent [] k n = false
was_sent ((j, sent) ∷ uploads) k n = (j =? k) && Map.contains sent.parts n || was_sent uploads k n

clear_parts-contains {ℓ} :
    {A : Type ℓ} (nums : Map ℕ (Unit {0})) (sent : Map ℕ A) (n : ℕ)
    → Map.contains (clear_parts nums sent) n ≡ (Map.contains nums n && not (Map.contains sent n))
unfolding clear_parts Map.get
clear_parts-contains nums [] n = ground arith
clear_parts-contains nums ((m, p) ∷ sent) n =
    ground (arith, clear_parts-contains nums sent n, Map.get-delete (clear_parts nums sent) m n)

put_or_delete-dirty :
    (k j : Key) (n : ℕ) (nums : Map ℕ (Unit {0})) (dirty : Map Key (Map ℕ (Unit {0})))
    → is_dirty (put_or_delete k nums dirty) j n
      ≡ (if k =? j then Map.contains nums n else is_dirty dirty j n)
unfolding Map.get
put_or_delete-dirty k j n [] dirty = ground (arith, Map.get-delete dirty k j)
put_or_delete-dirty k j n (e ∷ nums) dirty = ground (arith, Map.get-put dirty k j (e ∷ nums))

clear_key-dirty :
    (dirty : Map Key (Map ℕ (Unit {0}))) (k j : Key) (sent : UploadState) (n : ℕ)
    → is_dirty (clear_key dirty k sent) j n
      ≡ (is_dirty dirty j n && not ((k =? j) && Map.contains sent.parts n))
unfolding clear_key
clear_key-dirty dirty k j sent n = elim (Option-cases (Map.get dirty k)) [
  | inl e ↦ rw (clear_key, e) (absent e)
  | inr (nums, e) ↦ rw (clear_key, e) (present nums e)
]
  where
    absent :
        Map.get dirty k ≡ none
        → is_dirty dirty j n ≡ (is_dirty dirty j n && not ((k =? j) && Map.contains sent.parts n))
    absent e = elim (Key-discrete k j) [
      | yes same ↦ rw (is_dirty, ap (Map.get dirty) (sym same) ∙ e) refl
      | no other ↦ ground (arith, other)
    ]

    present :
        (nums : Map ℕ (Unit {0}))
        → Map.get dirty k ≡ some nums
        → is_dirty (put_or_delete k (clear_parts nums sent.parts) dirty) j n
          ≡ (is_dirty dirty j n && not ((k =? j) && Map.contains sent.parts n))
    present nums e = elim (Key-discrete k j) [
      | yes same ↦
          put_or_delete-dirty k j n (clear_parts nums sent.parts) dirty
          ∙ rw (is_dirty, ap (Map.get dirty) (sym same) ∙ e)
              (ground (arith, same, clear_parts-contains nums sent.parts n))
      | no other ↦
          put_or_delete-dirty k j n (clear_parts nums sent.parts) dirty ∙ ground (arith, other)
    ]

is_dirty-clear_sent :
    (dirty : Map Key (Map ℕ (Unit {0}))) (uploads : Map Key UploadState) (k : Key) (n : ℕ)
    → is_dirty (clear_sent dirty uploads) k n ≡ (is_dirty dirty k n && not (was_sent uploads k n))
unfolding clear_sent
is_dirty-clear_sent dirty [] k n = ground arith
is_dirty-clear_sent dirty ((j, sent) ∷ uploads) k n = ground (
  arith,
  clear_key-dirty (clear_sent dirty uploads) j k sent n,
  is_dirty-clear_sent dirty uploads k n,
)

-- The store of the worker has the part, in a state that is valid.
abbrev pub has_part : WorkerUploads → Key → ℕ → Bool
has_part w k n = elim (saved_state w.store k) [
  | none ↦ false
  | some (ptr, state) ↦ is_valid state && Map.contains state.parts n
]

abbrev in_report : Option UploadState → ℕ → Bool
in_report none n = false
in_report (some state) n = Map.contains state.parts n

pick-contains {ℓ} :
    {A : Type ℓ} (parts : Map ℕ A) (nums : Map ℕ (Unit {0})) (n : ℕ)
    → Map.contains (pick parts nums) n ≡ (Map.contains nums n && Map.contains parts n)
unfolding pick Map.get
pick-contains parts [] n = refl
pick-contains {A = A} parts ((m, u) ∷ nums) n =
    let rest = pick-contains parts nums n in
    elim (Option-cases (Map.get parts m)) [
      | inl e ↦ rw (pick, e) (absent rest e)
      | inr (p, e) ↦ rw (pick, e) (present rest p e)
    ]
  where
    absent :
        Map.contains (pick parts nums) n ≡ (Map.contains nums n && Map.contains parts n)
        → Map.get parts m ≡ none
        → Map.contains (pick parts nums) n
          ≡ (Map.contains ((m, u) ∷ nums) n && Map.contains parts n)
    absent rest e = elim (ℕ_discrete m n) [
      | yes same ↦ ground (arith, rest, same, e, ap (Map.get parts) same)
      | no other ↦ ground (arith, rest, other)
    ]

    present :
        Map.contains (pick parts nums) n ≡ (Map.contains nums n && Map.contains parts n)
        → (p : A) → Map.get parts m ≡ some p
        → Map.contains ((m, p) ∷ pick parts nums) n
          ≡ (Map.contains ((m, u) ∷ nums) n && Map.contains parts n)
    present rest p e = elim (ℕ_discrete m n) [
      | yes same ↦ ground (arith, rest, same, e, ap (Map.get parts) same)
      | no other ↦ ground (arith, rest, other)
    ]

unless_empty-in_report :
    (state : UploadState) (n : ℕ) → in_report (unless_empty state) n ≡ Map.contains state.parts n
unfolding Map.get
unless_empty-in_report state n = by_parts state.parts refl
  where
    by_parts :
        (parts : Map ℕ Part)
        → state.parts ≡ parts
        → in_report (if is_empty parts then none else some state) n ≡ Map.contains parts n
    by_parts [] e = refl
    by_parts (p ∷ parts) e = ap (λ m. Map.contains m n) e

report_of-parts :
    (w : WorkerUploads) (k : Key) (n : ℕ)
    → in_report (report_of w k) n ≡ (is_dirty w.dirty k n && has_part w k n)
unfolding report_of
report_of-parts w k n = elim (Option-cases (Map.get w.dirty k)) [
  | inl e ↦ rw (report_of, is_dirty, e) refl
  | inr (nums, e) ↦ elim (Option-cases (saved_state w.store k)) [
    | inl f ↦ rw (report_of, is_dirty, has_part, e, f) (ground arith)
    | inr ((ptr, state), f) ↦ elim (Bool-cases (is_valid state)) [
      | inr g ↦ rw (report_of, is_dirty, has_part, e, f, g) (ground arith)
      | inl g ↦
          rw (report_of, is_dirty, has_part, e, f, g)
            (unless_empty-in_report (picked state nums) n ∙ pick-contains state.parts nums n)
    ]
  ]
]

abbrev member : Key → List Key → Bool
member k [] = false
member k (j ∷ ks) = (j =? k) || member k ks

report_keys-was_sent :
    (w : WorkerUploads) (ks : List Key) (k : Key) (n : ℕ)
    → was_sent (report_keys w ks) k n ≡ (member k ks && in_report (report_of w k) n)
unfolding report_keys
report_keys-was_sent w [] k n = refl
report_keys-was_sent w (j ∷ ks) k n =
    step (report_of w j) (report_keys w ks) ∙ joined (report_keys-was_sent w ks k n)
  where
    step :
        (o : Option UploadState) (rest : Map Key UploadState)
        → was_sent (elim o [ none ↦ rest | some state ↦ (j, state) ∷ rest ]) k n
          ≡ ((j =? k) && in_report o n || was_sent rest k n)
    step none rest = ground arith
    step (some state) rest = refl

    joined :
        was_sent (report_keys w ks) k n ≡ (member k ks && in_report (report_of w k) n)
        → ((j =? k) && in_report (report_of w j) n || was_sent (report_keys w ks) k n)
          ≡ (member k (j ∷ ks) && in_report (report_of w k) n)
    joined h = elim (Key-discrete j k) [
      | yes same ↦ ground (arith, h, same, ap (λ i. in_report (report_of w i) n) same)
      | no other ↦ ground (arith, h, other)
    ]

member-keys :
    (m : Map Key (Map ℕ (Unit {0}))) (k : Key) (n : ℕ)
    → is_dirty m k n ≡ true
    → member k (Map.keys m) ≡ true
unfolding Map.get
member-keys [] k n h = cc h
member-keys ((j, nums) ∷ m) k n h = ground (arith, h, member-keys m k n)

-- A report takes exactly the parts that were dirty when it was made and that the worker's store has
-- in a valid state. When it is answered these are dirty no longer, and every other part that is
-- dirty by then stays so, also one that was marked since.
pub is_dirty-get_uploads :
    (w : WorkerUploads) (dirty : Map Key (Map ℕ (Unit {0}))) (k : Key) (n : ℕ)
    → is_dirty (clear_sent dirty (get_uploads w)) k n
      ≡ (is_dirty dirty k n && not (is_dirty w.dirty k n && has_part w k n))
unfolding get_uploads
is_dirty-get_uploads w dirty k n = ground (
  arith,
  is_dirty-clear_sent dirty (get_uploads w) k n,
  report_keys-was_sent w (Map.keys w.dirty) k n,
  report_of-parts w k n,
  member-keys w.dirty k n,
)

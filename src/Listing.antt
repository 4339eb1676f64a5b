-- ===== src/Listing.antt =====
-- Listing a storage (pkg/sync/sync.go): `listAll` and `listCommonPrefix`. What the storage answers is
-- given, call by call; a call without an answer fails. A listing delivers a stream.
pub mod Order
pub mod Failure
use my_sync.Common.{
  ℕ, zero, suc, Bool, true, false, not, ◌&&◌, Option, none, some, List, [], ◌∷◌, ◌++◌,
  if◌then◌else◌, is_empty,
}
use my_sync.Common.Key.{Key, key_lt, key_eq}
use my_sync.Object.{Object, key, is_dir}
use my_sync.Filter.{Stream}

-- The results of one `List`, without the token, which only the storage reads.
pub record Page : Type 0 where
  pub objs : List Object
  pub has_more : Bool

-- How the walk over a page ends: the listing ends with it, or goes on after the last key.
pub data Walk : Type 0 where
  left_off : Walk
  goes_on : Option Key → Walk

-- `!first && key <= lastkey`
abbrev pub out_of_order : Option Key → Key → Bool
out_of_order none k = false
out_of_order (some last) k = not (key_lt last k)

abbrev pub beyond : Key → Key → Bool
beyond end k = not (is_empty end) && key_lt end k

-- The loop over the objects of a page.
unfoldable pub walk : Key → Option Key → List Object → Stream × Walk
walk end last [] = ([], goes_on last)
walk end last (o ∷ os) =
    let (s, w) = walk end (some (key o)) os in
    if out_of_order last (key o)
    then (none ∷ [], left_off)
    else if beyond end (key o)
    then ([], left_off)
    else (some o ∷ s, w)

-- A page is asked for again while there are calls left, from the call numbered `i` on.
unfoldable pub ask : ℕ → ℕ → (ℕ → Option Page) → Option Page
ask i zero answers = none
ask i (suc more) answers =
    let rest = ask (suc i) more answers in elim (answers i) [ some p ↦ some p | none ↦ rest ]

-- A page that starts with the marker again loses it.
abbrev pub without_marker : Option Key → Page → Page
without_marker last p = elim p.objs [
  | [] ↦ p
  | o ∷ os ↦
      if key_eq (key o) (elim last [ none ↦ [] | some k ↦ k ]) then record p { objs = os } else p
]

-- The loop over the pages. `calls` are the answers to the calls for each page after the first.
unfoldable pub list_pages : Key → Option Key → Page → List (ℕ → Option Page) → Stream
unfolding walk ask
list_pages end last p [] =
    let (s, w) = walk end last p.objs in
    elim w [ left_off ↦ s | goes_on next ↦ if p.has_more then s ++ (none ∷ []) else s ]
list_pages end last p (answers ∷ calls) =
    let (s, w) = walk end last p.objs in
    elim w [
      | left_off ↦ s
      | goes_on next ↦
          if p.has_more
          then elim (ask 0 4 answers) [
            | none ↦ s ++ (none ∷ [])
            | some p' ↦ s ++ list_pages end next (without_marker next p') calls
          ]
          else s
    ]

-- The objects of `ListAll` up to the end key; a failure goes through.
unfoldable pub cut : Key → Stream → Stream
cut end [] = []
cut end (none ∷ s) = none ∷ cut end s
cut end (some o ∷ s) = let rest = cut end s in if beyond end (key o) then [] else some o ∷ rest

-- What a call gives: a value, `ErrNotSUP`, or another error.
pub data Answer (A : Type 0) : Type 0 where
  gives : A → Answer A
  not_supported refused : Answer A

-- The answers of a storage: `Head` of the start key, `ListAll`, the first `List`, the calls for the
-- pages after it, and `ListAllWithDelimiter`.
pub record ListAnswers : Type 0 where
  pub start_object : Option Object
  pub all : Answer Stream
  pub first : Answer Page
  pub calls : List (ℕ → Option Page)
  pub delimited : Option Stream

abbrev has_prefix : Key → Key → Bool
has_prefix [] k = true
has_prefix (a ∷ p) [] = false
has_prefix (a ∷ p) (b ∷ k) = key_eq (a ∷ []) (b ∷ []) && has_prefix p k

-- The start key, where it is asked for and there.
abbrev start_part : Key → Key → Bool → ListAnswers → Stream
start_part prefix start include ans =
    if include && (not (is_empty start) && has_prefix prefix start)
    then elim ans.start_object [ none ↦ [] | some o ↦ some o ∷ [] ]
    else []

-- `listAll`; `none` is its error.
unfoldable pub list_all : Key → Key → Key → Bool → ListAnswers → Option Stream
unfolding list_pages cut
list_all prefix start end include ans = elim ans.all [
  | gives s ↦ some (start_part prefix start include ans ++ cut end s)
  | refused ↦ none
  | not_supported ↦ elim ans.first [
    | not_supported ↦ ans.delimited
    | refused ↦ none
    | gives p ↦ some (start_part prefix start include ans ++ list_pages end none p ans.calls)
  ]
]

-- A directory below the prefix goes to the other channel.
abbrev pub is_child : Key → Object → Bool
is_child prefix o = is_dir o && key_lt prefix (key o)

-- The objects of a page that are listed, and the directories below the prefix.
unfoldable pub listed : Key → List Object → Stream
listed prefix [] = []
listed prefix (o ∷ os) =
    let rest = listed prefix os in if is_child prefix o then rest else some o ∷ rest

unfoldable pub children : Key → List Object → List Object
children prefix [] = []
children prefix (o ∷ os) =
    let rest = children prefix os in if is_child prefix o then o ∷ rest else rest

-- `listCommonPrefix`: what the channel of keys delivers, and the directories for the other one. An
-- error is logged, and the channel is closed.
unfoldable pub list_common_prefix : Key → List (Option Page) → Stream × List Object
unfolding listed children
list_common_prefix prefix [] = ([], [])
list_common_prefix prefix (none ∷ pages) = ([], [])
list_common_prefix prefix (some p ∷ pages) =
    let (s, dirs) = list_common_prefix prefix pages in
    if p.has_more
    then (listed prefix p.objs ++ s, children prefix p.objs ++ dirs)
    else (listed prefix p.objs, children prefix p.objs)

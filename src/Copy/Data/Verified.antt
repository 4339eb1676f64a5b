-- ===== src/Copy/Data/Verified.antt =====
-- The checksum that `copyData` returns is that of the object, on every way the copy can take.
use my_sync.Common.{
  ℕ, suc, ◌+◌, ◌≤◌, ◌≡◌, refl, Bool, true, false, Option, none, some, length, take, arith,
  Bool-cases, Option-cases, inl, inr, ◌⊎◌, ltb, leb,
}
use my_sync.Common.Int.{pos}
use my_sync.Upload.{MultipartUpload}
use my_sync.Uploads.{Store, find_multipart_upload}
use my_sync.Uploads.Laws.{ensure_state-no_part, find-finish}
use my_sync.Parts.{Range, choose_part_size}
use my_sync.Contents.{Bytes, Crc, max_block}
use my_sync.Contents.Blocks.{UpdatesByBlocks}
use my_sync.Contents.Objects.{Combines}
use my_sync.Copy.{Result, ok, err, retry, Copied}
use my_sync.Copy.Multiple.{Job, MultipleAnswers, copy_multiple, forget, saved_part, ensured}
use my_sync.Copy.Parts.{ReadsRange}
use my_sync.Copy.Sums.{slice, Result-cases, retry-ok}
use my_sync.Copy.Whole.{copy_multiple-sum}
use my_sync.Copy.Data.{
  Endpoints, copy_single, DataAnswers, copy_fresh, copy_resumed, copy_large, unless_gone, copy_any,
  copy_data, create_upload, Created, made, not_supported, refused, checkpoint_threshold,
}
use my_sync.Copy.Data.Whole.{ReadsWhole, copy_single-sum}

-- A new upload takes nothing over: the store has no part of an object whose upload it does not find.
ensured-fresh :
    (s : Store) (job : Job) (part_size : ℕ) (up : MultipartUpload) (r : Range)
    → find_multipart_upload s job.key (pos job.size) job.mtime ≡ none
    → saved_part (ensured (some s) job part_size up) true r ≡ none
unfolding saved_part
ensured-fresh s job ps up r e =
    rw
      (saved_part, ensure_state-no_part s job.key (pos job.size) job.mtime ps (suc r.num) up true e)
      refl

unless_gone-ok : (gone : Bool) (r : Result ℕ) (sum : ℕ) → unless_gone gone r ≡ ok sum → r ≡ ok sum
unless_gone-ok gone (ok s) sum e = e
unless_gone-ok true (err x) sum e = cc e
unless_gone-ok false (err x) sum e = cc e

Created-cases :
    (c : Created) → ((up : MultipartUpload) × (c ≡ made up)) ⊎ (c ≡ not_supported) ⊎ (c ≡ refused)
Created-cases (made up) = inl (up, refl)
Created-cases not_supported = inr (inl refl)
Created-cases refused = inr (inr refl)

-- What the storages deliver, on every way the copy can take, are the object's bytes, and so are the
-- parts of an upload of an earlier run that the store has with a checksum.
abbrev pub Delivers : Crc → Bytes → Job → Option Store → DataAnswers → Type 0
Delivers crc xs job store ans =
    ((i : ℕ) → ReadsWhole xs job.size (ans.single i))
    × ((r : Range) → r.off + r.len ≤ length xs → ReadsRange xs r.off r.len (ans.fresh.part r))
    × ((r : Range) → r.off + r.len ≤ length xs → ReadsRange xs r.off r.len (ans.resumed.part r))
    × ((s : Store) (up : MultipartUpload) (r : Range) (c : Copied)
        → store ≡ some s
        → find_multipart_upload s job.key (pos job.size) job.mtime ≡ some up
        → r.off + r.len ≤ length xs
        → saved_part (ensured (some s) job (choose_part_size up job.size) up) true r ≡ some c
        → c.sum ≡ crc.update 0 (slice xs r.off r.len))

-- The object is not in the store, if there is one.
abbrev Unknown : Job → Option Store → Type 0
Unknown job none = Unit
Unknown job (some s) = find_multipart_upload s job.key (pos job.size) job.mtime ≡ none

Unknown-no_part :
    (job : Job) (store : Option Store) (part_size : ℕ) (up : MultipartUpload) (r : Range)
    (c : Copied)
    → Unknown job store
    → ¬ (saved_part (ensured store job part_size up) true r ≡ some c)
unfolding saved_part
Unknown-no_part job none ps up r c u e = cc e
Unknown-no_part job (some s) ps up r c u e = cc (ensured-fresh s job ps up r u, e)

module _ (crc : Crc) (ends : Endpoints) (job : Job) (xs : Bytes) (law : UpdatesByBlocks crc)
    (combines : Combines crc) (cal : job.cal ≡ true) (enough : job.size ≤ length xs) where
  single-sum :
      (ans : DataAnswers) (n sum : ℕ)
      → ((i : ℕ) → ReadsWhole xs job.size (ans.single i))
      → retry n (λ i. copy_single crc ends job (ans.single i)) ≡ ok sum
      → sum ≡ crc.update 0 (take job.size xs)
  single-sum ans n sum reads e =
      let (i, last) = retry-ok n (λ i. copy_single crc ends job (ans.single i)) sum e in
      copy_single-sum crc ends job (ans.single i) xs sum law (reads i) cal last

  multiple-sum :
      (up : MultipartUpload) (store : Option Store) (ans : MultipleAnswers) (sum : ℕ)
      → 1 ≤ job.size
      → Unknown job store
      → ((r : Range) → r.off + r.len ≤ length xs → ReadsRange xs r.off r.len (ans.part r))
      → (copy_multiple crc job up store ans).result ≡ ok sum
      → sum ≡ crc.update 0 (take job.size xs)
  multiple-sum up store ans sum n u reads e =
      copy_multiple-sum crc job up store ans xs sum law combines cal n enough
        (
          reads,
          (λ r c within found.
              absurd (Unknown-no_part job store (choose_part_size up job.size) up r c u found)),
        )
        e

  copy_fresh-sum :
      (store : Option Store) (ans : DataAnswers) (sum : ℕ)
      → 1 ≤ job.size
      → Unknown job store
      → ((i : ℕ) → ReadsWhole xs job.size (ans.single i))
      → ((r : Range) → r.off + r.len ≤ length xs → ReadsRange xs r.off r.len (ans.fresh.part r))
      → (copy_fresh crc ends job store ans).result ≡ ok sum
      → sum ≡ crc.update 0 (take job.size xs)
  unfolding copy_fresh
  copy_fresh-sum store ans sum n u whole parts e = elim (Created-cases (create_upload ans)) [
    | inl (up, new) ↦ multiple-sum up store ans.fresh sum n u parts (rw (copy_fresh, new) at e)
    | inr (inl unsupported) ↦ single-sum ans 3 sum whole (rw (copy_fresh, unsupported) at e)
    | inr (inr refusal) ↦ elim (Result-cases (retry 2 ans.create_again)) [
      | inl (up, new) ↦
          multiple-sum up store ans.fresh sum n u parts (rw (copy_fresh, refusal, new) at e)
      | inr (x, wrong) ↦ cc (rw (copy_fresh, refusal, wrong) at e)
    ]
  ]

  Unknown-forget : (store : Option Store) → Unknown job (forget job.key store)
  Unknown-forget none = tt
  Unknown-forget (some s) = find-finish s job.key (pos job.size) job.mtime

  copy_resumed-sum :
      (s : Store) (up : MultipartUpload) (ans : DataAnswers) (sum : ℕ)
      → 1 ≤ job.size
      → find_multipart_upload s job.key (pos job.size) job.mtime ≡ some up
      → Delivers crc xs job (some s) ans
      → (copy_resumed crc ends job s up ans).result ≡ ok sum
      → sum ≡ crc.update 0 (take job.size xs)
  unfolding copy_resumed
  copy_resumed-sum s up ans sum n found (whole, fresh, resumed, saved) e =
      elim (Result-cases (copy_multiple crc job up (some s) ans.resumed).result) [
        | inl (sum', done) ↦
            copy_multiple-sum crc job up (some s) ans.resumed xs sum law combines cal n enough
              (resumed, (λ r c. saved s up r c refl found)) (rw (copy_resumed, done) at e)
        | inr (x, wrong) ↦
            copy_fresh-sum (forget job.key (copy_multiple crc job up (some s) ans.resumed).store)
              ans sum n (Unknown-forget (copy_multiple crc job up (some s) ans.resumed).store) whole
              fresh (rw (copy_resumed, wrong) at e)
      ]

  copy_large-sum :
      (store : Option Store) (ans : DataAnswers) (sum : ℕ)
      → 1 ≤ job.size
      → Delivers crc xs job store ans
      → (copy_large crc ends job store ans).result ≡ ok sum
      → sum ≡ crc.update 0 (take job.size xs)
  unfolding copy_large
  copy_large-sum none ans sum n (whole, fresh, _, _) e =
      copy_fresh-sum none ans sum n tt whole fresh e
  copy_large-sum (some s) ans sum n delivers e =
      elim (Option-cases (find_multipart_upload s job.key (pos job.size) job.mtime)) [
        | inl unknown ↦
            copy_fresh-sum (some s) ans sum n unknown delivers.0 delivers.1
              (rw (copy_large, unknown) at e)
        | inr (up, found) ↦
            copy_resumed-sum s up ans sum n found delivers (rw (copy_large, found) at e)
      ]

  copy_any-sum :
      (store : Option Store) (ans : DataAnswers) (sum : ℕ)
      → Delivers crc xs job store ans
      → (copy_any crc ends job store ans).result ≡ ok sum
      → sum ≡ crc.update 0 (take job.size xs)
  copy_any-sum store ans sum delivers e = elim (Bool-cases (ltb job.size max_block)) [
    | inl small ↦ single-sum ans 3 sum delivers.0 (rw (copy_any, small) at e)
    | inr large ↦ elim (Bool-cases (leb job.size checkpoint_threshold)) [
      | inl unkept ↦
          copy_large-sum none ans sum (some_bytes job.size large)
            (delivers.0, delivers.1, delivers.2, (λ s up r c none_is. cc none_is))
            (rw (copy_any, large, unkept) at e)
      | inr kept ↦
          copy_large-sum store ans sum (some_bytes job.size large) delivers
            (rw (copy_any, large, kept) at e)
    ]
  ]
    where
      some_bytes : (n : ℕ) → ltb n max_block ≡ false → 1 ≤ n
      some_bytes n h = ground (arith, h)

-- An object that has at least the bytes that are to be copied, of which the storages deliver what it
-- has, on every way the copy can take: where the copy of an object ends well and a checksum is
-- wanted, it is that of these bytes, with a store of uploads and without, whatever parts of an
-- earlier run are taken over, and however often a call is repeated.
pub copy_data-sum :
    (crc : Crc) (ends : Endpoints) (job : Job) (xs : Bytes) (store : Option Store)
    (ans : DataAnswers) (sum : ℕ)
    → UpdatesByBlocks crc
    → Combines crc
    → job.cal ≡ true
    → job.size ≤ length xs
    → Delivers crc xs job store ans
    → (copy_data crc ends job store ans).result ≡ ok sum
    → sum ≡ crc.update 0 (take job.size xs)
unfolding copy_data
copy_data-sum crc ends job xs store ans sum law combines cal enough delivers e =
    copy_any-sum crc ends job xs law combines cal enough store ans sum delivers
      (unless_gone-ok ans.source_gone (copy_any crc ends job store ans).result sum e)

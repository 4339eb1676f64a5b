-- ===== src/Copy/Data/Whole.antt =====
-- The checksum of an object that is copied as a whole.
use my_sync.Common.{
  ℕ, ◌≡◌, refl, sym, ap, ◌∙◌, Bool, true, false, not, ◌&&◌, ◌||◌, [], take, Bool-cases,
  Option-cases, inl, inr, ltb, ◌==◌, if◌then◌else◌, is_empty, ==_iff,
}
use my_sync.Completion.{Failure, err_skipped}
use my_sync.Contents.{Bytes, Crc, max_block}
use my_sync.Contents.Blocks.{UpdatesByBlocks}
use my_sync.Copy.{Result, ok, err}
use my_sync.Copy.Multiple.{Job}
use my_sync.Copy.Sums.{Result-cases, ok_injective}
use my_sync.Copy.Data.{
  Endpoints, SingleAnswers, put_bytes, copy_single_plain, copy_single, full_body, empty_body,
}

-- An attempt at the whole object delivers its bytes.
abbrev pub ReadsWhole : Bytes → ℕ → SingleAnswers → Type 0
ReadsWhole xs size ans =
    ((bytes : Bytes) → ans.download ≡ ok bytes → bytes ≡ take size xs)
    × ((bytes : Bytes) → ans.body ≡ ok bytes → bytes ≡ take size xs)

put_bytes-sum :
    (crc : Crc) (ans : SingleAnswers) (body : Result Bytes) (xs : Bytes) (sum : ℕ)
    → ((bytes : Bytes) → body ≡ ok bytes → bytes ≡ xs)
    → put_bytes crc true ans body ≡ ok sum
    → sum ≡ crc.update 0 xs
unfolding put_bytes
put_bytes-sum crc ans (err x) xs sum right e = cc e
put_bytes-sum crc ans (ok bytes) xs sum right e = elim (Option-cases (ans.put bytes)) [
  | inr (x, wrong) ↦ cc (rw (put_bytes, wrong) at e)
  | inl done ↦
      sym (ok_injective _ sum (rw (put_bytes, done) at e)) ∙ ap (crc.update 0) (right bytes refl)
]

full_body-right :
    (ans : SingleAnswers) (xs bytes : Bytes)
    → ((bytes : Bytes) → ans.body ≡ ok bytes → bytes ≡ xs)
    → full_body ans ≡ ok bytes
    → bytes ≡ xs
full_body-right ans xs bytes right e = elim (Result-cases ans.body) [
  | inl (b, got) ↦ right bytes (got ∙ (rw (full_body, got) at e))
  | inr (x, wrong) ↦ absurd (gone_not_ok ans.source_gone x bytes (rw (full_body, wrong) at e))
]
  where
    gone_not_ok :
        (b : Bool) (x : Failure) (ys : Bytes) → ¬ ((if b then err err_skipped else err x) ≡ ok ys)
    gone_not_ok true x ys h = cc h
    gone_not_ok false x ys h = cc h

empty_body-right :
    (ends : Endpoints) (ans : SingleAnswers) (bytes : Bytes)
    → empty_body ends ans ≡ ok bytes
    → bytes ≡ []
empty_body-right ends ans bytes e = elim (Bool-cases ends.src_file_system) [
  | inr plain ↦ sym (ok_injective [] bytes (rw (empty_body, plain) at e))
  | inl checked ↦ elim (Option-cases ans.opened) [
    | inl fine ↦ sym (ok_injective [] bytes (rw (empty_body, checked, fine) at e))
    | inr (x, wrong) ↦ cc (rw (empty_body, checked, wrong) at e)
  ]
]

copy_single_plain-sum :
    (crc : Crc) (ends : Endpoints) (job : Job) (ans : SingleAnswers) (xs : Bytes) (sum : ℕ)
    → UpdatesByBlocks crc
    → ReadsWhole xs job.size ans
    → job.cal ≡ true
    → copy_single_plain crc ends job ans ≡ ok sum
    → sum ≡ crc.update 0 (take job.size xs)
unfolding copy_single_plain
copy_single_plain-sum crc ends job ans xs sum law reads cal e = elim (Bool-cases (job.size == 0)) [
  | inr some_bytes ↦
      put_bytes-sum crc ans (full_body ans) (take job.size xs) sum
        (λ b. full_body-right ans (take job.size xs) b reads.1)
        (rw (copy_single_plain, some_bytes, cal) at e)
  | inl empty ↦
      no_bytes empty ∙ ap (λ n. crc.update 0 (take n xs)) (sym ((==_iff job.size 0).0 empty))
]
  where
    no_bytes : (job.size == 0) ≡ true → sum ≡ crc.update 0 []
    no_bytes empty =
        elim (Bool-cases
          (is_empty job.key && (not ends.dst_file_system && ends.dst_whole_bucket))) [
            | inl ignored ↦
                sym (ok_injective 0 sum (rw (copy_single_plain, empty, ignored) at e))
                ∙ sym (law.0 0)
            | inr put ↦
                put_bytes-sum crc ans (empty_body ends ans) [] sum
                  (λ b. empty_body-right ends ans b) (rw (copy_single_plain, empty, put, cal) at e)
          ]

pub copy_single-sum :
    (crc : Crc) (ends : Endpoints) (job : Job) (ans : SingleAnswers) (xs : Bytes) (sum : ℕ)
    → UpdatesByBlocks crc
    → ReadsWhole xs job.size ans
    → job.cal ≡ true
    → copy_single crc ends job ans ≡ ok sum
    → sum ≡ crc.update 0 (take job.size xs)
unfolding copy_single
copy_single-sum crc ends job ans xs sum law reads cal e =
    elim (Bool-cases (ltb max_block job.size && (not ends.dst_in_mem && not ends.src_fast_read))) [
      | inr plain ↦
          copy_single_plain-sum crc ends job ans xs sum law reads cal (rw (copy_single, plain) at e)
      | inl loaded ↦ elim (Bool-cases (ends.dst_stream_write || ans.temp_file)) [
        | inr plain ↦
            copy_single_plain-sum crc ends job ans xs sum law reads cal
              (rw (copy_single, loaded, plain) at e)
        | inl down ↦
            put_bytes-sum crc ans ans.download (take job.size xs) sum reads.0
              (rw (copy_single, loaded, down, cal) at e)
      ]
    ]

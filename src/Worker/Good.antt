-- ===== src/Worker/Good.antt =====
-- What a copy that is verified shows of the two objects.
use my_sync.Common.{
  ℕ, ◌≤◌, ◌≡◌, refl, sym, ap, subst, ◌∙◌, Bool, true, false, ◌&&◌, ◌==◌, ==_iff, Option, none, some,
  length, take, Option-cases, inl, inr, arith,
}
use my_sync.Common.Int.{pos, pos_part}
use my_sync.Object.{Object, size, is_symlink}
use my_sync.Contents.{Bytes}
use my_sync.Contents.Blocks.{UpdatesByBlocks}
use my_sync.Contents.Objects.{Combines, object_chksum_lem}
use my_sync.Contents.Sameness.{Serves}
use my_sync.Copy.{ok, retry}
use my_sync.Copy.Sums.{Result-cases, retry-ok, some_injective, ok_injective}
use my_sync.Copy.Data.{copy_data}
use my_sync.Copy.Data.Verified.{Delivers, copy_data-sum}
use my_sync.Worker.{WorkEnv, Work, TaskAnswers, Reads, uploads_of}
use my_sync.Worker.Check.{checks, do_check_sum, check_sum, compare_bodies}
use my_sync.Worker.Steps.{job_of, transfer, check_if, verify_copy, after_copy, copy_and_check}

check_sum-ok :
    (env : WorkEnv) (o : Object) (sum : Option ℕ) (reads : ℕ → Reads) (w : Work) (b : Bool)
    → (check_sum env o sum reads w).1 ≡ ok b
    → (i : ℕ) × (do_check_sum env o sum (reads i) ≡ ok b)
unfolding check_sum
check_sum-ok env o sum reads w b e =
    elim (Result-cases (retry 3 (λ i. do_check_sum env o sum (reads i)))) [
      | inr (x, f) ↦ cc (rw (check_sum, f) at e)
      | inl (a, f) ↦ retry-ok 3 (λ i. do_check_sum env o sum (reads i)) b (rw (check_sum, f) at e)
    ]

verify_copy-none :
    (env : WorkEnv) (ans : TaskAnswers) (o : Object) (sum : ℕ) (w : Work)
    → (verify_copy env ans o sum w).1 ≡ none
    → (check_sum env o (some sum) ans.after w).1 ≡ ok true
verify_copy-none env ans o sum w e =
    elim (Result-cases (check_sum env o (some sum) ans.after w).1) [
      | inr (x, f) ↦ cc (rw (verify_copy, f) at e)
      | inl (false, f) ↦ cc (rw (verify_copy, f) at e)
      | inl (true, f) ↦ f
    ]

after_copy-none :
    (env : WorkEnv) (ans : TaskAnswers) (o : Object) (sum : ℕ) (w : Work)
    → checks env.config ≡ true
    → (after_copy env ans o sum w).1 ≡ none
    → (w' : Work) × ((check_sum env o (some sum) ans.after w').1 ≡ ok true)
unfolding after_copy
after_copy-none env ans o sum w on e =
    elim (Option-cases (check_if env.config.check_change env ans o w).1) [
      | inr (x, f) ↦ cc (rw (after_copy, f) at e)
      | inl f ↦
          let w' = (check_if env.config.check_change env ans o w).0 in
          (w', verify_copy-none env ans o sum w' (simp (after_copy, f, on) at e))
    ]

copy_and_check-none :
    (env : WorkEnv) (ans : TaskAnswers) (o : Object) (w w' : Work)
    → copy_and_check env ans o w ≡ some (w', none)
    → (between : Work) × (sum : ℕ) × (transfer env ans o w ≡ some (between, ok sum))
      × ((after_copy env ans o sum between).1 ≡ none)
unfolding copy_and_check
copy_and_check-none env ans o w w' e = elim (Option-cases (transfer env ans o w)) [
  | inl f ↦ cc (rw (copy_and_check, f) at e)
  | inr ((between, r), f) ↦ elim (Result-cases r) [
    | inr (x, g) ↦ cc (some_injective _ (w', none) (rw (copy_and_check, f, g) at e))
    | inl (sum, g) ↦ (
      between,
      sum,
      f ∙ ap (λ r. some (between, r)) g,
      ap (λ r. r.1) (some_injective _ (w', none) (rw (copy_and_check, f, g) at e)),
    )
  ]
]

transfer-ok :
    (env : WorkEnv) (ans : TaskAnswers) (o : Object) (w between : Work) (sum : ℕ)
    → (env.config.links && is_symlink o) ≡ false
    → transfer env ans o w ≡ some (between, ok sum)
    → (copy_data env.crc env.ends (job_of env.config o) (uploads_of w) ans.copy).result ≡ ok sum
unfolding transfer
transfer-ok env ans o w between sum plain e =
    let out = copy_data env.crc env.ends (job_of env.config o) (uploads_of w) ans.copy in
    elim (Result-cases out.result) [
      | inr (x, f) ↦ cc (simp (transfer, plain, f) at e)
      | inl (s, f) ↦
          f ∙ ap (λ r. r.1) (some_injective _ (between, ok sum) (simp (transfer, plain, f) at e))
    ]

compared :
    (env : WorkEnv) (o : Object) (sum : ℕ) (reads : Reads) (ys : Bytes) (n : ℕ)
    → UpdatesByBlocks env.crc
    → Combines env.crc
    → (env.config.links && is_symlink o) ≡ false
    → size o ≡ pos n
    → Serves reads.dst_reader ys
    → n ≤ length ys
    → do_check_sum env o (some sum) reads ≡ ok true
    → sum ≡ env.crc.update 0 (take n ys)
unfolding do_check_sum
compared env o sum reads ys n law combines plain bytes serve enough e =
    (==_iff sum (env.crc.update 0 (take n ys))).0 (
      ok_injective _ true (
        sym against
        ∙ (simp (do_check_sum, not_links env.config.links (is_symlink o) (checks env.config) plain)
            at e)))
  where
    not_links : (a b c : Bool) → (a && b) ≡ false → (b && (a && c)) ≡ false
    not_links a b c h = ground (arith, h)

    against : compare_bodies env.crc o (some sum) reads ≡ ok (sum == env.crc.update 0 (take n ys))
    against =
        rw
          (
            compare_bodies,
            bytes,
            object_chksum_lem env.crc reads.dst_reader ys n law combines serve enough,
          )
          refl

-- Under `--check-all` or `--check-new`, for an object that is not copied as a link, where the source
-- delivers the object's bytes, as do the parts of an earlier run that are taken over, and the
-- destination serves its own to the comparison: a copy that ends without an error
-- leaves a destination whose bytes, up to the object's size, have the checksum of the source's.
pub copy_and_check-same_sum :
    (env : WorkEnv) (ans : TaskAnswers) (o : Object) (w w' : Work) (xs ys : Bytes) (n : ℕ)
    → UpdatesByBlocks env.crc
    → Combines env.crc
    → checks env.config ≡ true
    → (env.config.links && is_symlink o) ≡ false
    → size o ≡ pos n
    → n ≤ length xs
    → n ≤ length ys
    → Delivers env.crc xs (job_of env.config o) (uploads_of w) ans.copy
    → ((i : ℕ) → Serves (ans.after i).dst_reader ys)
    → copy_and_check env ans o w ≡ some (w', none)
    → env.crc.update 0 (take n xs) ≡ env.crc.update 0 (take n ys)
copy_and_check-same_sum env ans o w w' xs ys n law combines on plain bytes p q delivers serves e =
    let (between, sum, copied, fine) = copy_and_check-none env ans o w w' e in
    let (later, equal) = after_copy-none env ans o sum between on fine in
    let (i, found) = check_sum-ok env o (some sum) ans.after later true equal in
    let exact : pos_part (size o) ≡ n = ap pos_part bytes in
    let source =
      copy_data-sum env.crc env.ends (job_of env.config o) xs (uploads_of w) ans.copy sum law
        combines on (subst (λ k. k ≤ length xs) (sym exact) p) delivers
        (transfer-ok env ans o w between sum plain copied) in
    ap (λ k. env.crc.update 0 (take k xs)) (sym exact)
    ∙ (sym source
        ∙ compared env o sum (ans.after i) ys n law combines plain bytes (serves i) q found)

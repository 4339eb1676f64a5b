-- ===== src/Download/Delivery.antt =====
-- What `Read` hands out is the object, in order.
use my_sync.Common.{
  ℕ, zero, suc, ◌≤◌, ◌≡◌, refl, subst, leb→le, ◌≢◌, ◌∙◌, Option, none, some, List, length, take,
  All, arith, leb, Bool-cases, Option-cases, inl, inr,
}
use my_sync.Common.Map
use my_sync.Common.Map.{Map, number_keys}
use my_sync.Contents.{Bytes}
use my_sync.Contents.Pieces.{take_past}
use my_sync.Download.{Downloader, current, eof, read_block, read, Move, run_moves, new_downloader}
use my_sync.Download.Reading.{Honest, Delivers, run_moves-Delivers}

pub some_injective : {d d' : Downloader} → some d ≡ some d' → d ≡ d'
some_injective h = cc

new_downloader-Delivers :
    (content : Bytes) (b : ℕ) (d : Downloader)
    → new_downloader (length content) b ≡ some d
    → Delivers content b d
unfolding new_downloader Map.get
new_downloader-Delivers content zero d made = cc
new_downloader-Delivers content (suc b) d made =
    subst (Delivers content (suc b)) (some_injective made) (record {
      whole = refl;
      blocked = refl;
      handed = refl;
      inside = omega arith;
      blocks = λ off p found. cc;
    })

read_block-goes_on : (d : Downloader) (n : ℕ) (q : Option Bytes) → (read_block d n q).1 ≢ eof
unfolding read_block
read_block-goes_on d n none e = elim (Option-cases d.err) [ inl fine ↦ cc | inr (f, broke) ↦ cc ]
read_block-goes_on d n (some p) e = cc

-- The reader is told of the end only where it is at the end.
read-eof : (d : Downloader) (n : ℕ) → (read d n).1 ≡ eof → d.fsize ≤ d.pos
unfolding read
read-eof d zero e = cc
read-eof d (suc n) e = elim (Bool-cases (leb d.fsize d.pos)) [
  | inl ends ↦ leb→le d.fsize d.pos ends
  | inr more ↦
      absurd (read_block-goes_on d (suc n) (Map.get d.buffers (current d)) (rw (read, more) at e))
]

-- Let each `Get` that gives bytes give those of the object's block. In whatever order the loop of
-- `download`, its goroutines, the reader and `Close` take their steps, and however many blocks
-- fail: what `Read` has handed out so far is the start of the object, up to the reader's place. Where
-- the next `Read` answers with the end of the file, it is the whole object.
pub run_moves-delivered :
    (content : Bytes) (b : ℕ) (d : Downloader) (steps : List Move) (n : ℕ)
    → new_downloader (length content) b ≡ some d
    → All (Honest content b) steps
    → let d' = run_moves d steps in
      (d'.delivered ≡ take d'.pos content) × ((read d' n).1 ≡ eof → d'.delivered ≡ content)
run_moves-delivered content b d steps n made honest =
    let good : Delivers content b (run_moves d steps) =
      run_moves-Delivers content b d steps (new_downloader-Delivers content b d made) honest in
    (
      good.handed,
      λ ended.
          good.handed
          ∙ take_past (run_moves d steps).pos content
              (omega (arith, good.whole, read-eof (run_moves d steps) n ended)),
    )

-- ===== src/Download.antt =====
-- `parallelDownloader` (pkg/sync/download.go): an object is fetched in blocks by goroutines of its
-- own and read in order. What runs under the lock is one step. A `Read` is one step, which returns or
-- finds that it has to wait; its wait and `Signal` are in Download.Notify.
pub mod Reading
pub mod Delivery
pub mod Counting
pub mod Slots
pub mod Cover
pub mod Waiting
pub mod Notify
use my_sync.Common.{
  ℕ, zero, suc, ◌+◌, ◌-◌, ◌*◌, ◌/◌, Bool, true, false, Option, none, some, List, [], ◌∷◌, ◌++◌,
  length, take, drop, ltb, leb, ◌==◌, if◌then◌else◌,
}
use my_sync.Common.Map
use my_sync.Common.Map.{Map, number_keys}
use my_sync.Contents.{Bytes}

-- The errors of a download: the storage's, by number, too few bytes, and that of `Close`.
pub data Fault : Type 0 where
  of_storage : ℕ → Fault
  short closed_early : Fault

-- Where the goroutine of a block stands: before `hasErr`, before the end of `Get`, or about to give
-- its slot back.
pub data Phase : Type 0 where
  started fetching leaving : Phase

-- `held` counts the slots of `concurrent` that this download has taken and not given back. `next` is
-- `off` of the loop of `download`, `pos` is `r.off`. `active` are the goroutines by the offset of
-- their block. `delivered` is what `Read` has handed out, in order.
pub record Downloader : Type 0 where
  pub fsize : ℕ
  pub block_size : ℕ
  pub next : ℕ
  pub held : ℕ
  pub active : Map ℕ Phase
  pub buffers : Map ℕ Bytes
  pub closed : Bool
  pub err : Option Fault
  pub pos : ℕ
  pub delivered : Bytes

-- `newParallelDownloader`; a block size below 1 panics.
unfoldable pub new_downloader : ℕ → ℕ → Option Downloader
new_downloader fsize zero = none
new_downloader fsize (suc b) = some (record {
  fsize = fsize;
  block_size = suc b;
  next = 0;
  held = 0;
  active = [];
  buffers = [];
  closed = false;
  err = none;
  pos = 0;
  delivered = [];
})

-- The size of the block at an offset.
abbrev pub block_len : ℕ → ℕ → ℕ → ℕ
block_len fsize block_size off = if ltb fsize (off + block_size) then fsize - off else block_size

-- One round of the loop of `download`, which waits for a slot.
unfoldable pub spawn : Downloader → Downloader
spawn d =
    if ltb d.next d.fsize
    then record d {
      held = suc d.held;
      active = Map.put d.active d.next started;
      next = d.next + d.block_size;
    }
    else d

-- `hasErr` in the goroutine of a block.
unfoldable pub look : Downloader → ℕ → Downloader
look d off = record d {
  active = Map.put d.active off (elim d.err [ none ↦ fetching | some e ↦ leaving ]);
}

-- `setErr` after a failure of `Get` or `ReadFull`.
unfoldable pub fail : Downloader → ℕ → Fault → Downloader
fail d off e = record d { err = some e; active = Map.put d.active off leaving }

-- A full block goes into `buffers`, unless `Close` has set them to nil.
unfoldable pub save : Downloader → ℕ → Bytes → Downloader
save d off p =
    if d.closed
    then record d { active = Map.put d.active off leaving }
    else record d { active = Map.delete d.active off; buffers = Map.put d.buffers off p }

-- The answer of `Get`, after its retries, read in full: an error, or what the reader gives.
unfoldable pub fetch : Downloader → ℕ → Option Bytes → ℕ → Downloader
unfolding fail save
fetch d off none e = fail d off (of_storage e)
fetch d off (some body) e =
    let size = block_len d.fsize d.block_size off in
    if ltb (length body) size then fail d off short else save d off (take size body)

-- `<-r.concurrent` of a goroutine that saved nothing.
unfoldable pub leave : Downloader → ℕ → Downloader
leave d off = record d { active = Map.delete d.active off; held = d.held - 1 }

-- What `Read` returns; `waits` is a call that is not over yet.
pub data ReadResult : Type 0 where
  got : Bytes → ReadResult
  eof waits : ReadResult
  broken : Fault → ReadResult

-- The block that the reader is in.
abbrev pub current : Downloader → ℕ
current d = d.pos / d.block_size * d.block_size

-- Bytes of the block at hand are copied. After its last byte the block is dropped and its slot given
-- back.
unfoldable pub consume : Downloader → ℕ → Bytes → Bytes → Downloader
consume d off p bytes =
    let d' = record d { pos = d.pos + length bytes; delivered = d.delivered ++ bytes } in
    if d.pos + length bytes == off + length p
    then record d' { buffers = Map.delete d.buffers off; held = d.held - 1 }
    else d'

read_block : Downloader → ℕ → Option Bytes → Downloader × ReadResult
unfolding consume
read_block d n none = (d, elim d.err [ none ↦ waits | some e ↦ broken e ])
read_block d n (some p) =
    let bytes = take n (drop (d.pos - current d) p) in (consume d (current d) p bytes, got bytes)

-- `Read` into a buffer of `n` bytes.
unfoldable pub read : Downloader → ℕ → Downloader × ReadResult
unfolding read_block
read d zero = (d, got [])
read d (suc n) =
    if leb d.fsize d.pos then (d, eof) else read_block d (suc n) (Map.get d.buffers (current d))

-- `Close`
unfoldable pub close : Downloader → Downloader
close d = record d {
  buffers = [];
  closed = true;
  err = elim d.err [ none ↦ some closed_early | some e ↦ some e ];
}

-- What can happen, in any order.
pub data Move : Type 0 where
  spawns closes : Move
  looks leaves reads : ℕ → Move
  fetches : ℕ → Option Bytes → ℕ → Move

abbrev pub in_phase : Phase → Option Phase → Bool
in_phase started (some started) = true
in_phase fetching (some fetching) = true
in_phase leaving (some leaving) = true
in_phase _ _ = false

-- A step that cannot be taken changes nothing. The loop goes on after an error and after `Close`.
unfoldable pub move : Downloader → Move → Downloader
unfolding spawn look fetch leave read close
move d spawns = spawn d
move d closes = close d
move d (looks off) = if in_phase started (Map.get d.active off) then look d off else d
move d (fetches off answer e) =
    if in_phase fetching (Map.get d.active off) then fetch d off answer e else d
move d (leaves off) = if in_phase leaving (Map.get d.active off) then leave d off else d
move d (reads n) = (read d n).0

unfoldable pub run_moves : Downloader → List Move → Downloader
unfolding move
run_moves d [] = d
run_moves d (s ∷ steps) = run_moves (move d s) steps

-- ===== src/Buffer/Requests.antt =====
-- kernel/blk_drv/ll_rw_blk.c on a buffer of the cache: `ll_rw_block` and `make_request`.
use linux.Common.{
  ℕ, ◌/◌, ◌^◌, Bool, true, false, not, ◌&&◌, ◌||◌, none, some, [], ◌∷◌, update, ◌==◌, ◌!=◌,
  if◌then◌else◌,
}
use linux.Common.Int.{pos}
use linux.Blk.{Device, find_empty, limit, submit, read, write, reada, writea}
use linux.Blk.Pages.{has_driver}
use linux.Buffer.{Cache}
use linux.Buffer.Queues.{wait_on_buffer, locks}
use linux.Buffer.Steps.{Result, Step, return, panic, ◌>>=◌, ◌>>◌, get, modify}

-- The buffer as `make_request` sees it; its number stands for its addresses.
abbrev pub device_of : ℕ → ℕ → Cache → Device
device_of major bh c = record {
  requests = c.request;
  queue = c.queue major;
  bh = record {
    name = bh;
    b_data = bh;
    b_blocknr = (c.head bh).b_blocknr;
    b_dev = pos (c.head bh).b_dev;
    b_uptodate = (c.head bh).b_uptodate;
    b_dirt = (c.head bh).b_dirt;
    b_lock = (c.head bh).b_lock;
  };
  started = false;
}

-- The request in entry `k`: the table, the queue and the buffer's dirt are what `submit` makes of
-- them.
unfoldable pub submit_entry : ℕ → ℕ → ℕ → Cache → Cache
submit_entry rw bh k c =
    let major = (c.head bh).b_dev / 2 ^ 8 in
    let d = submit rw k (device_of major bh c) in
    record c {
      request = d.requests;
      queue = update c.queue major d.queue;
      head = update c.head bh (record (c.head bh) { b_dirt = d.bh.b_dirt });
    }

-- `make_request` from `repeat` on.
unfoldable pub take_entry : ℕ → Bool → ℕ → Step (Unit {0})
take_entry rw rw_ahead bh [] c = elim (find_empty (limit rw) c.request) [
  | some k ↦ Result.done tt [] (submit_entry rw bh k c)
  | none ↦ if rw_ahead then Result.done tt [] (locks false bh c) else Result.asleep
]
take_entry rw rw_ahead bh (w ∷ ws) c =
    let rest = take_entry rw rw_ahead bh ws w in
    elim (find_empty (limit rw) c.request) [
      | some k ↦ Result.done tt (w ∷ ws) (submit_entry rw bh k c)
      | none ↦ if rw_ahead then Result.done tt (w ∷ ws) (locks false bh c) else rest
    ]

-- `make_request` from `lock_buffer` on.
unfoldable pub locked_request : ℕ → Bool → ℕ → Step (Unit {0})
locked_request rw rw_ahead bh = do
  wait_on_buffer bh
  modify (locks true bh)
  c ← get
  if rw == write && not (c.head bh).b_dirt || rw == read && (c.head bh).b_uptodate
      then modify (locks false bh)
      else take_entry rw rw_ahead bh

-- `ll_rw_block` with `make_request` on a buffer of the cache. `request_fn` tells which majors have a
-- driver.
unfoldable pub ll_rw_block : (ℕ → Bool) → ℕ → ℕ → Step (Unit {0})
ll_rw_block request_fn rw bh = do
  c ← get
  let rw_ahead = rw == reada || rw == writea
  let command = if rw_ahead then (if rw == reada then read else write) else rw
  if not (has_driver request_fn (pos (c.head bh).b_dev)) || rw_ahead && (c.head bh).b_lock
      then return tt
      else if command != read && command != write
      then panic
      else locked_request command rw_ahead bh

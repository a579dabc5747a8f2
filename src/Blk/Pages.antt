-- ===== src/Blk/Pages.antt =====
-- kernel/blk_drv/ll_rw_blk.c: the requests for whole pages, the entry point for buffers, and the start
-- of the table.
use linux.Common.{
  ℕ, zero, suc, ◌-◌, ◌*◌, ◌/◌, ◌%◌, ◌^◌, ◌<◌, ◌≤◌, none, some, List, [], ◌∷◌, Bool, true, false,
  not, ◌&&◌, ltb, ◌!=◌, if◌then◌else◌, get_elem?, set, arith, ◌≡◌, refl, ap, ◌∙◌, length,
}
use linux.Common.Int.{ℤ, negsuc, to_u32}
use linux.Sched.{TaskState}
use linux.Blk.{
  Request, Device, Made, nr_request, read, write, is_free, find_empty, add_request, make_request,
}

abbrev pub nr_blk_dev : ℕ
nr_blk_dev = 7

-- `MAJOR(dev)`: the device is cast to unsigned.
abbrev pub major : ℤ → ℕ
major dev = to_u32 dev / 2 ^ 8

-- Whether `blk_dev[]` has a driver's function for the device.
unfoldable pub has_driver : (ℕ → Bool) → ℤ → Bool
has_driver request_fn dev = ltb (major dev) nr_blk_dev && request_fn (major dev)

abbrev pub page_request : ℕ → ℤ → ℕ → ℕ → ℕ → Request
page_request rw dev page buffer current = record {
  dev = dev;
  cmd = rw;
  errors = 0;
  sector = page * 2 ^ 3 % 2 ^ 32;
  nr_sectors = 8;
  buffer = buffer;
  waiting = some current;
  bh = none;
}

-- `ll_rw_page` returns without a request, calls `panic`, sleeps where the states run out, or fills an
-- entry and calls `schedule` with the caller in the state given.
pub data Paged : Type 0 where
  nonexistent : Device → Paged
  panicked : Paged
  asleep : Paged
  sent : ℕ → Device → TaskState → Paged

-- Fills entry `k` and adds the request to the queue.
unfoldable pub send_page : Request → ℕ → Device → Paged
send_page req k d =
    let (queue, started) = add_request req d.queue in
    Paged.sent k (record d { requests = set d.requests k req; queue = queue; started = started })
      TaskState.uninterruptible

-- From `repeat` on, with the states after the sleeps.
unfoldable pub take_any : Request → List Device → Device → Paged
take_any req [] d = elim (find_empty nr_request d.requests) [
  | some k ↦ send_page req k d
  | none ↦ Paged.asleep
]
take_any req (w ∷ ws) d = elim (find_empty nr_request d.requests) [
  | some k ↦ send_page req k d
  | none ↦ take_any req ws w
]

unfoldable pub ll_rw_page : (ℕ → Bool) → ℕ → ℤ → ℕ → ℕ → ℕ → List Device → Device → Paged
ll_rw_page request_fn rw dev page buffer current waits d =
    let r = take_any (page_request rw dev page buffer current) waits d in
    if not (has_driver request_fn dev)
    then Paged.nonexistent d
    else if rw != read && rw != write
    then Paged.panicked
    else r

unfoldable pub ll_rw_block : (ℕ → Bool) → ℕ → List Device → List Device → Device → Made
ll_rw_block request_fn rw sleeps waits d =
    if not (has_driver request_fn d.bh.b_dev)
    then Made.dropped d
    else make_request rw sleeps waits d

-- `blk_dev_init` over the first `n` entries; the links are not part of an entry.
unfoldable pub init_from : ℕ → List Request → List Request
init_from zero requests = requests
init_from (suc n) [] = []
init_from (suc n) (r ∷ requests) = record r { dev = negsuc 0 } ∷ init_from n requests

unfoldable pub blk_dev_init : List Request → List Request
blk_dev_init requests = init_from nr_request requests

init_from-free :
    (n i : ℕ) (requests : List Request)
    → i < n
    → i < length requests
    → is_free (get_elem? (init_from n requests) i) ≡ true
unfolding init_from is_free
init_from-free zero i requests l h = absurd (omega arith)
init_from-free (suc n) i [] l h = absurd (omega arith)
init_from-free (suc n) zero (r ∷ requests) l h = refl
init_from-free (suc n) (suc i) (r ∷ requests) l h =
    init_from-free n i requests (omega arith) (omega arith)

find_empty-last :
    (n : ℕ) (requests : List Request)
    → is_free (get_elem? requests n) ≡ true
    → find_empty (suc n) requests ≡ some n
unfolding find_empty
find_empty-last n requests h = rw h refl

take_any-sent :
    (req : Request) (k : ℕ) (waits : List Device) (d : Device)
    → find_empty nr_request d.requests ≡ some k
    → take_any req waits d ≡ send_page req k d
unfolding take_any
take_any-sent req k [] d h = rw (h, take_any) refl
take_any-sent req k (w ∷ ws) d h = rw (h, take_any) refl

send_page-empty :
    (req : Request) (k : ℕ) (d : Device)
    → d.queue ≡ []
    → send_page req k d
      ≡ Paged.sent k
          (record d { requests = set d.requests k req; queue = req ∷ []; started = true })
          TaskState.uninterruptible
unfolding send_page add_request
send_page-empty req k d h =
    ap
      (λ q.
        Paged.sent k
          (record d {
            requests = set d.requests k req;
            queue = (add_request req q).0;
            started = (add_request req q).1;
          })
          TaskState.uninterruptible)
      h

-- After blk_dev_init, a page request to a device with a driver never sleeps: it takes the last entry
-- and the empty queue becomes that request alone, with the driver started and the caller asleep.
pub ll_rw_page-blk_dev_init :
    (request_fn : ℕ → Bool) (cmd : ℕ) (dev : ℤ) (page buffer current : ℕ) (waits : List Device)
    (requests : List Request) (d : Device)
    → length requests ≡ nr_request
    → d.requests ≡ blk_dev_init requests
    → d.queue ≡ []
    → has_driver request_fn dev ≡ true
    → cmd ≤ write
    → (d' : Device) × (ll_rw_page request_fn cmd dev page buffer current waits d
        ≡ Paged.sent (nr_request - 1) d' TaskState.uninterruptible)
      × (d'.queue ≡ page_request cmd dev page buffer current ∷ [])
      × (d'.started ≡ true)
unfolding blk_dev_init ll_rw_page
ll_rw_page-blk_dev_init request_fn cmd dev page buffer current waits requests d long init empty
      driver low =
    let req = page_request cmd dev page buffer current in
    let is_open : is_free (get_elem? (blk_dev_init requests) 31) ≡ true =
      init_from-free nr_request 31 requests (omega arith) (omega (arith, long)) in
    let found : find_empty nr_request d.requests ≡ some 31 =
      ap (find_empty nr_request) init ∙ find_empty-last 31 (blk_dev_init requests) is_open in
    let command : (cmd != read && cmd != write) ≡ false = ground arith in
    (
      record d { requests = set d.requests 31 req; queue = req ∷ []; started = true },
      rw (driver, command, take_any-sent req 31 waits d found) (send_page-empty req 31 d empty),
      refl,
      refl,
    )

-- ===== src/Blk.antt =====
-- kernel/blk_drv/ll_rw_blk.c and blk.h: the request queue of a block device and its elevator.
pub mod Elevator
pub mod Entries
pub mod Requests
pub mod Pages
mod Tests
use linux.Common.{
  ℕ, ◌-◌, ◌*◌, ◌/◌, zero, suc, Option, none, some, List, [], ◌∷◌, Bool, true, false, ◌&&◌, ◌||◌,
  not, ltb, ◌==◌, if◌then◌else◌, get_elem?, set, ◌%◌, ◌^◌, ◌!=◌,
}
use linux.Common.Int.{ℤ, pos, ltb_ℤ, pos_part, neg_part}

-- `struct request`. The link `next` is the order of the list that holds the request, and `bh` and
-- `waiting` name a buffer head and a task.
pub record Request : Type 0 where
  pub dev : ℤ
  pub cmd : ℕ
  pub errors : ℕ
  pub sector : ℕ
  pub nr_sectors : ℕ
  pub buffer : ℕ
  pub waiting : Option ℕ
  pub bh : Option ℕ

abbrev pub nr_request : ℕ
nr_request = 32

abbrev pub eq_ℤ : ℤ → ℤ → Bool
eq_ℤ a b = pos_part a == pos_part b && neg_part a == neg_part b

-- `IN_ORDER(s1, s2)`
unfoldable pub in_order : Request → Request → Bool
in_order s1 s2 =
    ltb s1.cmd s2.cmd
    || s1.cmd == s2.cmd && (ltb_ℤ s1.dev s2.dev || eq_ℤ s1.dev s2.dev && ltb s1.sector s2.sector)

unfoldable pub has_buffer : Request → Bool
has_buffer r = elim (r.bh) [ none ↦ false | some b ↦ true ]

-- Whether the walk stops between `tmp` and `tmp->next`.
unfoldable pub stops : Request → Request → Request → Bool
stops req tmp next =
    if not (has_buffer req)
    then has_buffer next
    else (in_order tmp req || not (in_order tmp next)) && in_order req next

-- The walk from `tmp` on, with what follows `tmp`: what follows it afterwards.
unfoldable pub walk : Request → Request → List Request → List Request
walk req tmp [] = req ∷ []
walk req tmp (next ∷ rest) =
    if stops req tmp next then req ∷ next ∷ rest else next ∷ walk req next rest

-- The queue from `current_request` on, and whether `request_fn` is called. The buffer of the request
-- is clean afterwards.
unfoldable pub add_request : Request → List Request → List Request × Bool
add_request req [] = (req ∷ [], true)
add_request req (current ∷ rest) = (current ∷ walk req current rest, false)

-- Whether an entry of the table exists and has no request.
unfoldable pub is_free : Option Request → Bool
is_free none = false
is_free (some r) = ltb_ℤ r.dev (pos 0)

-- `while (--req >= request) if (req->dev < 0) break;` over the first `n` entries.
unfoldable pub find_empty : ℕ → List Request → Option ℕ
find_empty zero requests = none
find_empty (suc n) requests =
    let rest = find_empty n requests in if is_free (get_elem? requests n) then some n else rest

abbrev pub read : ℕ
read = 0

abbrev pub write : ℕ
write = 1

abbrev pub reada : ℕ
reada = 2

abbrev pub writea : ℕ
writea = 3

-- Where `make_request` starts to look: reads may use every entry, writes the first two thirds.
unfoldable pub limit : ℕ → ℕ
limit rw = if rw == read then nr_request else nr_request * 2 / 3

-- The fields of `struct buffer_head` that a request uses; `name` stands for its address.
pub record BufferHead : Type 0 where
  pub name : ℕ
  pub b_data : ℕ
  pub b_blocknr : ℕ
  pub b_dev : ℤ
  pub b_uptodate : Bool
  pub b_dirt : Bool
  pub b_lock : Bool

-- The table `request[]`, the queue of the device, the buffer, and whether the last `add_request` has
-- called `request_fn`, the driver's function.
pub record Device : Type 0 where
  pub requests : List Request
  pub queue : List Request
  pub bh : BufferHead
  pub started : Bool

abbrev pub locks : Bool → Device → Device
locks b d = record d { bh = record d.bh { b_lock = b } }

-- `lock_buffer`, and `unlock_buffer` but for its `wake_up`: each sleep takes the next of the states that the caller finds when it wakes up.
unfoldable pub lock_buffer : List Device → Device → Option Device
lock_buffer [] d = if d.bh.b_lock then none else some (locks true d)
lock_buffer (w ∷ ws) d =
    let rest = lock_buffer ws w in if d.bh.b_lock then rest else some (locks true d)

abbrev pub unlock_buffer : Device → Device
unlock_buffer d = locks false d

-- `make_request` returns without a request, puts one into an entry of the table, sleeps where the
-- states run out, or calls `panic`.
pub data Made : Type 0 where
  dropped : Device → Made
  queued : ℕ → Device → Made
  asleep : Made
  panicked : Made

abbrev pub new_request : ℕ → BufferHead → Request
new_request rw bh = record {
  dev = bh.b_dev;
  cmd = rw;
  errors = 0;
  sector = bh.b_blocknr * 2 % 2 ^ 32;
  nr_sectors = 2;
  buffer = bh.b_data;
  waiting = none;
  bh = some bh.name;
}

-- Fills entry `k` and adds the request to the queue.
unfoldable pub submit : ℕ → ℕ → Device → Device
submit rw k d =
    let req = new_request rw d.bh in
    let (queue, started) = add_request req d.queue in
    record d {
      requests = set d.requests k req;
      queue = queue;
      bh = record d.bh { b_dirt = false };
      started = started;
    }

-- From `repeat` on, with the states after the sleeps on `wait_for_request`.
unfoldable pub take_entry : ℕ → Bool → List Device → Device → Made
take_entry rw rw_ahead [] d = elim (find_empty (limit rw) d.requests) [
  | some k ↦ Made.queued k (submit rw k d)
  | none ↦ if rw_ahead then Made.dropped (unlock_buffer d) else Made.asleep
]
take_entry rw rw_ahead (w ∷ ws) d =
    let rest = take_entry rw rw_ahead ws w in
    elim (find_empty (limit rw) d.requests) [
      | some k ↦ Made.queued k (submit rw k d)
      | none ↦ if rw_ahead then Made.dropped (unlock_buffer d) else rest
    ]

-- From `lock_buffer` on, with what that gives.
unfoldable pub locked_request : ℕ → Bool → List Device → Option Device → Made
locked_request rw rw_ahead waits none = Made.asleep
locked_request rw rw_ahead waits (some d) =
    if rw == write && not d.bh.b_dirt || rw == read && d.bh.b_uptodate
    then Made.dropped (unlock_buffer d)
    else take_entry rw rw_ahead waits d

unfoldable pub make_request : ℕ → List Device → List Device → Device → Made
make_request rw sleeps waits d =
    let rw_ahead = rw == reada || rw == writea in
    let command = if rw_ahead then (if rw == reada then read else write) else rw in
    if rw_ahead && d.bh.b_lock
    then Made.dropped d
    else if command != read && command != write
    then Made.panicked
    else locked_request command rw_ahead waits (lock_buffer sleeps d)

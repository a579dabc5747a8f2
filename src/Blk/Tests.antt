-- ===== src/Blk/Tests.antt =====
-- The theorems about kernel/blk_drv/ll_rw_blk.c at concrete inputs, and runs of its functions.
use linux.Common.{
  ℕ, zero, suc, Option, none, some, List, [], ◌∷◌, ◌++◌, true, false, not, if◌then◌else◌, arith,
  ◌≡◌, refl, ap, sym, ◌↔◌, get_elem?, replicate,
}
use linux.Common.Int.{pos, negsuc}
use linux.Blk.{
  Request, Device, in_order, has_buffer, stops, walk, is_free, find_empty, limit, nr_request,
  make_request, add_request,
}
use linux.Blk.Elevator.{turns, turns_of, all, apart, add_request-inserts, add_request-sweep}
use linux.Blk.Entries.{HasRoom, EachHasRoom, EachLocked, IsMade}
use linux.Blk.Requests.{make_request-IsMade}

abbrev request : ℕ → ℕ → Option ℕ → Request
request cmd sector bh = record {
  dev = pos 769;
  cmd = cmd;
  errors = 0;
  sector = sector;
  nr_sectors = 2;
  buffer = 0;
  waiting = none;
  bh = bh;
}

abbrev reads : ℕ → Request
reads sector = request 0 sector (some 1)

-- The sweep from 100 on takes 200, and 10 waits for the next one.
abbrev waiting : List Request
waiting = reads 200 ∷ reads 10 ∷ []

-- 150 joins the sweep; 300 comes to its place in no sweep.
joins : (add_request (reads 150) (reads 100 ∷ waiting)).0 ≡ reads 100 ∷ reads 150 ∷ waiting
unfolding add_request walk stops in_order has_buffer
joins = refl

late : (add_request (reads 300) (reads 100 ∷ waiting)).0 ≡ reads 100 ∷ waiting ++ reads 300 ∷ []
unfolding add_request walk stops in_order has_buffer
late = refl

-- A read goes before a swapping write that waits.
overtakes :
    (add_request (reads 150) (reads 100 ∷ request 1 8 none ∷ [])).0
    ≡ reads 100 ∷ reads 150 ∷ request 1 8 none ∷ []
unfolding add_request walk stops in_order has_buffer
overtakes = refl

buffered : has_buffer (reads 150) ≡ true
unfolding has_buffer
buffered = refl

buffered_300 : has_buffer (reads 300) ≡ true
unfolding has_buffer
buffered_300 = refl

unbuffered : has_buffer (request 0 8 none) ≡ false
unfolding has_buffer
unbuffered = refl

one_sweep : turns_of (reads 100 ∷ reads 200 ∷ []) ≡ 0
unfolding turns_of turns in_order
one_sweep = refl

elsewhere : all (apart (reads 150)) (reads 200 ∷ []) ≡ true
unfolding in_order
elsewhere = refl

behind_all : all (λ x. not (in_order (reads 300) x)) waiting ≡ true
unfolding in_order
behind_all = refl

add_request-inserts_example :
    let r = add_request (reads 150) (reads 100 ∷ waiting) in
    (a : List Request) × (b : List Request) × (reads 100 ∷ waiting ≡ a ++ b)
    × (r.0 ≡ a ++ reads 150 ∷ b)
    × (a ≡ [] → reads 100 ∷ waiting ≡ [])
    × ((r.1 ≡ true) ↔ (reads 100 ∷ waiting ≡ []))
add_request-inserts_example = add_request-inserts (reads 150) (reads 100 ∷ waiting)

add_request-sweep_example :
    turns_of (add_request (reads 150) (reads 100 ∷ reads 200 ∷ [])).0
    ≡ (if in_order (reads 100) (reads 150) then 0 else 1)
add_request-sweep_example =
    add_request-sweep (reads 150) (reads 100) (reads 200 ∷ []) buffered one_sweep elsewhere

abbrev free : Request
free = record (reads 0) { dev = negsuc 0 }

abbrev idle : Device
idle = record {
  requests = replicate nr_request free;
  queue = [];
  bh = record {
    name = 1;
    b_data = 4096;
    b_blocknr = 75;
    b_dev = pos 769;
    b_uptodate = false;
    b_dirt = true;
    b_lock = false;
  };
  started = false;
}

all_free :
    (n i : ℕ) (r : Request) → get_elem? (replicate n free) i ≡ some r → is_free (some r) ≡ true
unfolding is_free
all_free zero i r e = absurd (ground (arith, e))
all_free (suc n) zero r e = ap is_free (sym e)
all_free (suc n) (suc i) r e = all_free n i r e

idle-HasRoom : HasRoom idle
unfolding HasRoom
idle-HasRoom i r h e t = absurd (ground (arith, t, all_free nr_request i r e))

make_request-IsMade_example : IsMade 3 (make_request 3 [] [] idle)
unfolding EachHasRoom EachLocked
make_request-IsMade_example = make_request-IsMade 3 [] [] idle idle-HasRoom tt tt tt

-- A write takes the last entry of the first two thirds.
find_runs : find_empty (limit 1) (replicate nr_request free) ≡ some 20
unfolding find_empty limit is_free
find_runs = refl

-- ===== src/Buffer/Queues.antt =====
-- fs/buffer.c: waiting for a buffer, the queues, and the search for a block or for a free buffer.
use linux.Common.{
  ℕ, zero, suc, ◌+◌, ◌%◌, ◌^◌, Bool, true, false, ◌&&◌, Option, none, some, List, [], ◌∷◌, ◌++◌,
  update, ltb, ◌==◌, ◌!=◌, if◌then◌else◌,
}
use linux.Buffer.{Head, Cache, hashfn, set_head, remove}
use linux.Buffer.Steps.{Result, Step, return, ◌>>=◌, ◌>>◌, get, modify, on_null}

-- `while (bh->b_lock) sleep_on(&bh->b_wait);`
unfoldable pub wait_on_buffer : ℕ → Step (Unit {0})
wait_on_buffer bh [] c = if (c.head bh).b_lock then Result.asleep else Result.done tt [] c
wait_on_buffer bh (w ∷ ws) c =
    let rest = wait_on_buffer bh ws w in
    if (c.head bh).b_lock then rest else Result.done tt (w ∷ ws) c

abbrev pub locks : Bool → ℕ → Cache → Cache
locks b bh c = set_head bh (record (c.head bh) { b_lock = b }) c

-- The hash queue without the buffer, and the free list without it. The links of a buffer in no hash
-- queue are null, and nothing is taken out.
unfoldable pub remove_from_queues : ℕ → Cache → Cache
remove_from_queues bh c =
    let h = hashfn (c.head bh).b_dev (c.head bh).b_blocknr in
    record c {
      hash_table = update c.hash_table h (remove bh (c.hash_table h));
      free_list = remove bh c.free_list;
    }

-- The end of the free list, and the front of the hash queue if the buffer has a device.
unfoldable pub insert_into_queues : ℕ → Cache → Cache
insert_into_queues bh c =
    let h = hashfn (c.head bh).b_dev (c.head bh).b_blocknr in
    record c {
      free_list = c.free_list ++ bh ∷ [];
      hash_table =
          if (c.head bh).b_dev == 0
          then c.hash_table
          else update c.hash_table h (bh ∷ c.hash_table h);
    }

unfoldable pub is_block : ℕ → ℕ → Head → Bool
is_block dev block h = h.b_dev == dev && h.b_blocknr == block

unfoldable pub find_in : (ℕ → Head) → ℕ → ℕ → List ℕ → Option ℕ
find_in head dev block [] = none
find_in head dev block (bh ∷ bhs) =
    if is_block dev block (head bh) then some bh else find_in head dev block bhs

unfoldable pub find_buffer : ℕ → ℕ → Cache → Option ℕ
find_buffer dev block c = find_in c.head dev block (c.hash_table (hashfn dev block))

-- `bh->b_count++` and `bh->b_count--` of an unsigned char.
abbrev pub count_up : ℕ → Cache → Cache
count_up bh c = set_head bh (record (c.head bh) { b_count = ((c.head bh).b_count + 1) % 2 ^ 8 }) c

abbrev pub count_down : ℕ → Cache → Cache
count_down bh c =
    set_head bh (record (c.head bh) { b_count = ((c.head bh).b_count + 255) % 2 ^ 8 }) c

-- Each round but the last sleeps, so one round more than there are states is enough.
unfoldable pub get_hash_table : ℕ → ℕ → ℕ → Step (Option ℕ)
get_hash_table zero dev block ws c = Result.no_fuel
get_hash_table (suc fuel) dev block ws c =
    let again = get_hash_table fuel dev block in
    on_null (find_buffer dev block c) (return none)
      (λ bh. do
        modify (count_up bh)
        wait_on_buffer bh
        c' ← get
        if is_block dev block (c'.head bh)
            then return (some bh)
            else do modify (count_down bh); again)
      ws c

-- `BADNESS(bh)`
unfoldable pub badness : Head → ℕ
badness h = (if h.b_dirt then 2 else 0) + (if h.b_lock then 1 else 0)

unfoldable pub is_better : (ℕ → Head) → ℕ → Option ℕ → Bool
is_better head tmp none = true
is_better head tmp (some bh) = ltb (badness (head tmp)) (badness (head bh))

-- The walk along the free list with the best buffer so far.
unfoldable pub choose : (ℕ → Head) → Option ℕ → List ℕ → Option ℕ
choose head bh [] = bh
choose head bh (tmp ∷ rest) =
    let as_before = choose head bh rest in
    let with_tmp = choose head (some tmp) rest in
    if (head tmp).b_count != 0
    then as_before
    else if is_better head tmp bh
    then (if badness (head tmp) == 0 then some tmp else with_tmp)
    else as_before

-- The buffer that has been found becomes the block's.
unfoldable pub claim : ℕ → ℕ → ℕ → Cache → Cache
claim dev block bh c =
    let used = record (c.head bh) { b_count = 1; b_dirt = false; b_uptodate = false } in
    let out = remove_from_queues bh (set_head bh used c) in
    insert_into_queues bh
      (set_head bh (record (out.head bh) { b_dev = dev; b_blocknr = block }) out)

-- ===== src/Buffer/Blocks.antt =====
-- fs/buffer.c: `sync_dev`, `getblk`, `brelse` and `bread`.
use linux.Common.{
  ℕ, zero, suc, Bool, true, false, ◌&&◌, Option, none, some, ◌==◌, ◌!=◌, if◌then◌else◌,
}
use linux.Blk.{read, write}
use linux.Buffer.{set_head}
use linux.Buffer.Queues.{claim, wait_on_buffer, find_buffer, get_hash_table, choose, count_down}
use linux.Buffer.Requests.{ll_rw_block}
use linux.Buffer.Steps.{Result, Step, return, panic, ◌>>=◌, ◌>>◌, get, modify, on_null, sleep_on}

-- `brelse` of a buffer that is not null; `wake_up` changes nothing here.
unfoldable pub brelse : ℕ → Step (Unit {0})
brelse bh = do
  wait_on_buffer bh
  c ← get
  modify (count_down bh)
  if (c.head bh).b_count == 0 then panic else return tt

module _ (request_fn : ℕ → Bool) (nr_buffers : ℕ) where
  -- A pass of `sync_dev` over the buffers from number `i` on, with the rounds left.
  unfoldable pub sync_from : ℕ → ℕ → ℕ → Step (Unit {0})
  sync_from dev zero i ws c = Result.done tt ws c
  sync_from dev (suc n) i ws c =
      let rest = sync_from dev n (suc i) in
      (if (c.head i).b_dev == dev
          then (do
            wait_on_buffer i
            c' ← get
            if (c'.head i).b_dev == dev && (c'.head i).b_dirt
                then ll_rw_block request_fn write i
                else return tt
            rest)
          else rest)
        ws c

  -- `sync_inodes` is an argument: it writes the changed inodes into buffers.
  unfoldable pub sync_dev : Step (Unit {0}) → ℕ → Step (Unit {0})
  sync_dev sync_inodes dev = do sync_from dev nr_buffers 0; sync_inodes; sync_from dev nr_buffers 0

  unfoldable pub invalidate_from : ℕ → ℕ → ℕ → Step (Unit {0})
  invalidate_from dev zero i ws c = Result.done tt ws c
  invalidate_from dev (suc n) i ws c =
      let rest = invalidate_from dev n (suc i) in
      (if (c.head i).b_dev == dev
          then (do
            wait_on_buffer i
            c' ← get
            if (c'.head i).b_dev == dev
                then modify (set_head i (record (c'.head i) { b_uptodate = false; b_dirt = false }))
                else return tt
            rest)
          else rest)
        ws c

  unfoldable pub invalidate_buffers : ℕ → Step (Unit {0})
  invalidate_buffers dev = invalidate_from dev nr_buffers 0

  module _ (sync_inodes : Step (Unit {0})) where
    -- `while (bh->b_dirt)`: false asks for another try.
    unfoldable pub clean : ℕ → ℕ → Step Bool
    clean zero bh ws c = Result.no_fuel
    clean (suc fuel) bh ws c =
        let again = clean fuel bh in
        (if (c.head bh).b_dirt
            then (do
              sync_dev sync_inodes (c.head bh).b_dev
              wait_on_buffer bh
              c' ← get
              if (c'.head bh).b_count != 0 then return false else again)
            else return true)
          ws c

    -- From `wait_on_buffer(bh)` to the last test: whether `bh` can be claimed.
    unfoldable pub settle : ℕ → ℕ → ℕ → ℕ → Step Bool
    settle fuel dev block bh = do
      wait_on_buffer bh
      c ← get
      if (c.head bh).b_count != 0 then return false else do
        cleaned ← clean fuel bh
        c' ← get
        on_null (find_buffer dev block c') (return cleaned) (λ b. return false)

    unfoldable pub getblk : ℕ → ℕ → ℕ → Step ℕ
    getblk zero dev block ws c = Result.no_fuel
    getblk (suc fuel) dev block ws c =
        let repeat = getblk fuel dev block in
        (do
          found ← get_hash_table (suc fuel) dev block
          c' ← get
          on_null found
              (on_null (choose c'.head none c'.free_list) (do sleep_on; repeat)
                (λ bh. do
                  ready ← settle fuel dev block bh
                  if ready then (do modify (claim dev block bh); return bh) else repeat))
              return)
          ws c

    unfoldable pub bread : ℕ → ℕ → ℕ → Step (Option ℕ)
    bread fuel dev block = do
      bh ← getblk fuel dev block
      c ← get
      if (c.head bh).b_uptodate then return (some bh) else do
        ll_rw_block request_fn read bh
        wait_on_buffer bh
        c' ← get
        if (c'.head bh).b_uptodate then return (some bh) else do brelse bh; return none

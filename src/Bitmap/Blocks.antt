-- ===== src/Bitmap/Blocks.antt =====
-- fs/bitmap.c: taking and freeing blocks and inodes, on the buffers of the cache.
use linux.Common.{
  ℕ, ◌+◌, ◌-◌, ◌*◌, ◌/◌, ◌%◌, Bool, true, false, ◌||◌, Option, none, some, List, [], ◌∷◌, ◌==◌,
  ◌!=◌, ltb, leb, if◌then◌else◌,
}
use linux.Inode.{Inode, no_inode}
use linux.Buffer.{Cache, set_head, set_content}
use linux.Buffer.Steps.{Step, return, panic, ◌>>=◌, ◌>>◌, get, modify, on_null}
use linux.Buffer.Queues.{get_hash_table}
use linux.Buffer.Blocks.{getblk, brelse}
use linux.Bitmap.{set_bit, clear_bit, SuperBlock, find_map}

-- `get_super`, of a table whose super blocks are not locked: those of no device have `s_dev` 0.
unfoldable pub find_super : ℕ → List SuperBlock → Option SuperBlock
find_super dev [] = none
find_super dev (s ∷ ss) = if s.s_dev == dev then some s else find_super dev ss

abbrev pub get_super : ℕ → List SuperBlock → Option SuperBlock
get_super dev super_block = if dev == 0 then none else find_super dev super_block

-- A zero bit of the block maps is set, so the panic for a bit that was set is not reached: the block
-- it stands for, by its number on the device.
unfoldable pub mark_block : SuperBlock → Cache → Option (ℕ × Cache)
mark_block sb c = elim (find_map sb.s_zmap c.content 8 0) [
  | none ↦ none
  | some (i, bh, j) ↦ some (
    j + i * 8192 + sb.s_firstdatazone - 1,
    set_head bh (record (c.head bh) { b_dirt = true })
        (set_content bh (set_bit j (c.content bh)).1 c),
  )
]

-- The bit of block `block` is cleared, and its map is dirty. A map that is missing is a null pointer,
-- and the code is not looked at further.
unfoldable pub unmark_block : SuperBlock → ℕ → Cache → Option Cache
unmark_block sb block c =
    let nr = block + 1 - sb.s_firstdatazone in
    elim (sb.s_zmap (nr / 8192)) [
      | none ↦ none
      | some bh ↦ some (
          set_head bh (record (c.head bh) { b_dirt = true })
            (set_content bh (clear_bit (nr % 8192) (c.content bh)).1 c))
    ]

abbrev pub set_cache : Cache → Step (Unit {0})
set_cache c = modify (λ old. c)

module _ (super_block : List SuperBlock) where
  -- `free_block`: 0 for a block that is in use in the cache.
  unfoldable pub free_block : ℕ → ℕ → ℕ → Step ℕ
  free_block fuel dev block = on_null (get_super dev super_block) panic (λ sb.
      if ltb block sb.s_firstdatazone || leb sb.s_nzones block then panic else do
        found ← get_hash_table fuel dev block
        c ← get
        let unmark = (do
          c' ← get
          on_null (unmark_block sb block c') panic (λ c''. do set_cache c''; return 1))
        on_null found unmark (λ bh.
            if ltb 1 (c.head bh).b_count then (do brelse bh; return 0) else do
              modify (set_head bh (record (c.head bh) { b_dirt = false; b_uptodate = false }))
              if (c.head bh).b_count != 0 then brelse bh else return tt
              unmark))

  module _ (request_fn : ℕ → Bool) (nr_buffers : ℕ) (sync_inodes : Step (Unit {0})) where
    -- The block's buffer is cleared.
    unfoldable pub clear_block : ℕ → ℕ → ℕ → Step ℕ
    clear_block fuel dev j = do
      bh ← getblk request_fn nr_buffers sync_inodes fuel dev j
      c ← get
      if (c.head bh).b_count != 1 then panic else do
        modify (set_content bh (λ w. 0))
        modify (set_head bh (record (c.head bh) { b_uptodate = true; b_dirt = true }))
        brelse bh
        return j

    -- `new_block`: 0 if no block is free.
    unfoldable pub new_block : ℕ → ℕ → Step ℕ
    new_block fuel dev = on_null (get_super dev super_block) panic (λ sb. do
      c ← get
      on_null (mark_block sb c) (return 0) (λ r. do
        set_cache r.1
        if leb sb.s_nzones r.0 then return 0 else clear_block fuel dev r.0))

  -- `free_inode` of an inode that is not null: the inode that is left.
  unfoldable pub free_inode : Inode → Step Inode
  free_inode inode =
      if inode.i_dev == 0
      then return no_inode
      else if ltb 1 inode.i_count || inode.i_nlinks != 0
      then panic
      else on_null (get_super inode.i_dev super_block) panic (λ sb.
        if ltb inode.i_num 1 || ltb sb.s_ninodes inode.i_num
        then panic
        else on_null (sb.s_imap (inode.i_num / 8192)) panic (λ bh. do
          c ← get
          modify (set_content bh (clear_bit (inode.i_num % 8192) (c.content bh)).1)
          modify (set_head bh (record (c.head bh) { b_dirt = true }))
          return no_inode))
